-- ===== src/Prelude/Trims.antt =====
-- What trimming and cutting leave of a text.
use Prim.Native.Nat.{ℕ, zero, suc, ◌≤◌}
use mathlib.Core.Path.{◌≡◌, refl, sym, ap, ◌∙◌, subst}
use mathlib.Core.Bool.{true, false}
use mathlib.Core.List.{[], ◌∷◌, reverse, reverse-cons}
use native.Mathlib.Omega.{arith}
use conversa_forge.Prelude.Tests.{if◌then◌else◌}
use conversa_forge.Prelude.Lists.{length, length-append, take, All, All-append}
use conversa_forge.Prelude.Texts.{Text, trim, trim_start, is_space}

module _ {κ} (P : ℕ → Type κ) where
  trim_start-All : (s : Text) → All P s → All P (trim_start s)
  unfolding trim_start
  trim_start-All [] h = tt
  trim_start-All (c ∷ s) h = elim (is_space c) as (λ b. All P (if b then trim_start s else c ∷ s)) [
    | true ↦ trim_start-All s h.1
    | false ↦ h
  ]

  All-reverse : (s : Text) → All P s → All P (reverse s)
  All-reverse [] h = h
  All-reverse (c ∷ s) h =
      subst (All P) (sym (reverse-cons c s))
        (All-append P (reverse s) (c ∷ []) (All-reverse s h.1) (h.0, tt))

  pub trim-All : (s : Text) → All P s → All P (trim s)
  unfolding trim
  trim-All s h = All-reverse _ (trim_start-All _ (All-reverse _ (trim_start-All s h)))

  pub All-take : (n : ℕ) (s : Text) → All P s → All P (take n s)
  All-take zero s h = tt
  All-take (suc n) [] h = tt
  All-take (suc n) (c ∷ s) h = (h.0, All-take n s h.1)

pub length-trim_start : (s : Text) → length (trim_start s) ≤ length s
unfolding trim_start
length-trim_start [] = omega arith
length-trim_start (c ∷ s) = ground (arith, length-trim_start s)

length-reverse : (s : Text) → length (reverse s) ≡ length s
length-reverse [] = refl
length-reverse (c ∷ s) =
    ap length (reverse-cons c s)
    ∙ length-append (reverse s) (c ∷ [])
    ∙ omega (arith, length-reverse s)

pub length-trim : (s : Text) → length (trim s) ≤ length s
unfolding trim
length-trim s = omega (
  arith,
  length-reverse (trim_start (reverse (trim_start s))),
  length-trim_start (reverse (trim_start s)),
  length-reverse (trim_start s),
  length-trim_start s,
)
