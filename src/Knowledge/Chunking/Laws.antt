-- ===== src/Knowledge/Chunking/Laws.antt =====
-- The pieces of a unit are short enough and lose nothing but white space.
use conversa_forge.Prelude.{
  ℕ, zero, suc, ◌-◌, ◌*◌, ◌≤◌, ◌<◌, ◌≡◌, refl, sym, ap, ◌∙◌, leb, ltb, ◌==◌, not, Bool, true, false,
  List, [], ◌∷◌, ◌++◌, filter, All, Option, none, some, is_empty, Text, trim_start, is_space, take,
  drop, length, length-take, take-append-drop, length-trim_start, arith, if◌then◌else◌,
}
use mathlib.Core.List.{append-nil}
use conversa_forge.Knowledge.Chunking.{last_space, cut_at, split_loop, split_long}

-- The characters of a text that are no white space.
abbrev pub ink : Text → Text
ink s = filter (λ c. not (is_space c)) s

abbrev pub ink_of_all : List Text → Text
ink_of_all [] = []
ink_of_all (s ∷ pieces) = ink s ++ ink_of_all pieces

last_space-le : (n : ℕ) (s : Text) (i : ℕ) → last_space n s ≡ some i → i ≤ n
unfolding last_space
last_space-le n [] i e = absurd (ground (arith, e))
last_space-le zero (c ∷ s) i e = ground (arith, e)
last_space-le (suc n) (c ∷ s) i e = by_rest (last_space n s) (last_space-le n s) e
  where
    by_rest :
        (o : Option ℕ)
        → ((j : ℕ) → o ≡ some j → j ≤ n)
        → (elim o as (λ x. Option ℕ) [
          | some j ↦ some (suc j)
          | none ↦ if c == 32 then some 0 else none
        ])
          ≡ some i
        → i ≤ suc n
    by_rest none h e' = ground (arith, e')
    by_rest (some j) h e' = ground (arith, h j refl, e')

cut_at-bounds :
    (limit : ℕ) (rest : Text) → 1 ≤ limit → (1 ≤ cut_at limit rest) × (cut_at limit rest ≤ limit)
unfolding cut_at
cut_at-bounds limit rest h = by_space (last_space limit rest) (last_space-le limit rest)
  where
    by_space :
        (o : Option ℕ)
        → ((i : ℕ) → o ≡ some i → i ≤ limit)
        → let cut = elim o as (λ x. ℕ) [
          | none ↦ limit
          | some i ↦ if ltb (2 * i) limit then limit else i
        ] in
          (1 ≤ cut) × (cut ≤ limit)
    by_space none k = (h, omega arith)
    by_space (some i) k = (ground (arith, h), ground (arith, k i refl))

ink-append : (s t : Text) → ink (s ++ t) ≡ ink s ++ ink t
ink-append [] t = refl
ink-append (c ∷ s) t = ground (arith, ink-append s t)

ink-trim_start : (s : Text) → ink (trim_start s) ≡ ink s
unfolding trim_start
ink-trim_start [] = refl
ink-trim_start (c ∷ s) = ground (arith, ink-trim_start s)

length-drop : (n : ℕ) (s : Text) → length (drop n s) ≡ length s - n
length-drop zero s = omega arith
length-drop (suc n) [] = omega arith
length-drop (suc n) (c ∷ s) = ground (arith, length-drop n s)

split_loop-IsShort :
    (fuel limit : ℕ) (rest : Text)
    → 1 ≤ limit
    → All (λ p. length p ≤ limit) (split_loop fuel limit rest)
unfolding split_loop
split_loop-IsShort zero limit rest h = tt
split_loop-IsShort (suc fuel) limit rest h =
    by_length (leb (length rest) limit) (is_empty rest) refl
      (split_loop-IsShort fuel limit (trim_start (drop (cut_at limit rest) rest)) h)
  where
    by_length :
        (b b' : Bool)
        → leb (length rest) limit ≡ b
        → All
            (λ p. length p ≤ limit)
            (split_loop fuel limit (trim_start (drop (cut_at limit rest) rest)))
        → All
            (λ p. length p ≤ limit)
            (elim b as (λ x. List Text) [
              | true ↦ if b' then [] else rest ∷ []
              | false ↦
                  take (cut_at limit rest) rest
                  ∷ split_loop fuel limit (trim_start (drop (cut_at limit rest) rest))
            ])
    by_length true true e k = tt
    by_length true false e k = (ground (arith, e), tt)
    by_length false b' e k =
        (omega (arith, length-take (cut_at limit rest) rest, (cut_at-bounds limit rest h).1), k)

split_loop-ink :
    (fuel limit : ℕ) (rest : Text)
    → 1 ≤ limit
    → length rest < fuel
    → ink_of_all (split_loop fuel limit rest) ≡ ink rest
unfolding split_loop
split_loop-ink zero limit rest h k = absurd (omega (arith, k))
split_loop-ink (suc fuel) limit rest h k =
    by_length (leb (length rest) limit) refl (split_loop-ink fuel limit tail h)
  where
    tail : Text
    tail = trim_start (drop (cut_at limit rest) rest)

    shorter : leb (length rest) limit ≡ false → length tail < fuel
    shorter e = omega (
      arith,
      length-trim_start (drop (cut_at limit rest) rest),
      length-drop (cut_at limit rest) rest,
      (cut_at-bounds limit rest h).0,
      h,
      k,
      is_longer (length rest) e,
    )
      where
        is_longer : (n : ℕ) → leb n limit ≡ false → limit < n
        is_longer n e' = ground (arith, e')

    whole : (s : Text) → ink_of_all (if is_empty s then [] else s ∷ []) ≡ ink s
    whole [] = refl
    whole (c ∷ s) = append-nil (ink (c ∷ s))

    by_length :
        (b : Bool)
        → leb (length rest) limit ≡ b
        → (length tail < fuel → ink_of_all (split_loop fuel limit tail) ≡ ink tail)
        → ink_of_all (elim b as (λ x. List Text) [
          | true ↦ if is_empty rest then [] else rest ∷ []
          | false ↦ take (cut_at limit rest) rest ∷ split_loop fuel limit tail
        ])
          ≡ ink rest
    by_length true e later = whole rest
    by_length false e later =
        ap (λ t. ink (take (cut_at limit rest) rest) ++ t)
          (later (shorter e) ∙ ink-trim_start (drop (cut_at limit rest) rest))
        ∙ sym (ink-append (take (cut_at limit rest) rest) (drop (cut_at limit rest) rest))
        ∙ ap ink (take-append-drop (cut_at limit rest) rest)

-- With a limit of at least one, the splitting ends, its pieces are at most as long as the limit, and the characters of
-- the unit that are no white space stand in them, in their order.
pub split_long_lem :
    (unit : Text) (limit : ℕ)
    → 1 ≤ limit
    → All (λ p. length p ≤ limit) (split_long unit limit)
      × (ink_of_all (split_long unit limit) ≡ ink unit)
unfolding split_long
split_long_lem unit limit h = by_length (leb (length unit) limit) refl
  where
    by_length :
        (b : Bool)
        → leb (length unit) limit ≡ b
        → let pieces = if b then unit ∷ [] else split_loop (suc (length unit)) limit unit in
          All (λ p. length p ≤ limit) pieces × (ink_of_all pieces ≡ ink unit)
    by_length true e = ((ground (arith, e), tt), append-nil (ink unit))
    by_length false e = (
      split_loop-IsShort (suc (length unit)) limit unit h,
      split_loop-ink (suc (length unit)) limit unit h (omega arith),
    )
