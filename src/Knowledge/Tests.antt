-- ===== src/Knowledge/Tests.antt =====
-- A unit of two words, split at three characters.
use conversa_forge.Prelude.{is_space, ◌≤◌, ◌≡◌, refl, [], ◌∷◌, All, Text, length, arith}
use conversa_forge.Knowledge.Chunking.{split_long}
use conversa_forge.Knowledge.Chunking.Laws.{ink, ink_of_all, split_long_lem}

abbrev words : Text
words = 97 ∷ 97 ∷ 32 ∷ 98 ∷ 98 ∷ []

pieces : split_long words 3 ≡ (97 ∷ 97 ∷ []) ∷ (98 ∷ 98 ∷ []) ∷ []
unfolding split_long is_space
pieces = refl

split_long_lem_example :
    All (λ p. length p ≤ 3) (split_long words 3) × (ink_of_all (split_long words 3) ≡ ink words)
split_long_lem_example = split_long_lem words 3 (omega arith)
