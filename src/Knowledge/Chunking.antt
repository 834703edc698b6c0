-- ===== src/Knowledge/Chunking.antt =====
-- The splitting of units that are too long, `splitLong` of backend/src/modules/knowledge/chunking.ts.
-- Its loop runs on fuel: the length of the unit is enough, as each round cuts off at least one
-- character.
pub mod Laws
use conversa_forge.Prelude.{
  ℕ, zero, suc, ◌*◌, ◌+◌, ◌/◌, leb, ltb, ◌==◌, Bool, true, false, List, [], ◌∷◌, Option, none, some,
  is_empty, Text, trim_start, take, drop, length, max, if◌then◌else◌,
}

-- `s.lastIndexOf(' ', n)`
unfoldable pub last_space : ℕ → Text → Option ℕ
last_space n [] = none
last_space zero (c ∷ s) = if c == 32 then some 0 else none
last_space (suc n) (c ∷ s) = elim (last_space n s) [
  | some i ↦ some (suc i)
  | none ↦ if c == 32 then some 0 else none
]

-- The place of the next cut: a space in the second half, or the limit.
unfoldable pub cut_at : ℕ → Text → ℕ
unfolding last_space
cut_at limit rest = elim (last_space limit rest) [
  | none ↦ limit
  | some i ↦ if ltb (2 * i) limit then limit else i
]

-- The loop, and the push after it.
unfoldable pub split_loop : (fuel limit : ℕ) → Text → List Text
unfolding cut_at trim_start
split_loop zero limit rest = []
split_loop (suc fuel) limit rest = elim (leb (length rest) limit) [
  | true ↦ if is_empty rest then [] else rest ∷ []
  | false ↦
      take (cut_at limit rest) rest
      ∷ split_loop fuel limit (trim_start (drop (cut_at limit rest) rest))
]

-- `splitLong`
unfoldable pub split_long : Text → ℕ → List Text
unfolding split_loop
split_long unit limit =
    if leb (length unit) limit then unit ∷ [] else split_loop (suc (length unit)) limit unit

-- `estimateTokens`
unfoldable pub estimate_tokens : Text → ℕ
estimate_tokens s = max 1 ((length s + 3) / 4)
