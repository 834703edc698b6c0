-- ===== src/Prelude/Search.antt =====
-- What `find` finds in a list that was filtered, extended or mapped, and where `All` holds.
use mathlib.Core.Path.{◌≡◌, refl, subst}
use mathlib.Core.Bool.{Bool, true, false}
use mathlib.Core.List.{List, [], ◌∷◌, ◌++◌, map}
use mathlib.Core.Option.{none, some}
use native.Mathlib.Omega.{arith}
use conversa_forge.Prelude.Tests.{if◌then◌else◌}
use conversa_forge.Prelude.Lists.{filter, find, any, All}

module _ {ℓ} {A : Type ℓ} (q : A → Bool) where
  -- A filter that keeps the first match.
  pub find-filter :
      (p : A → Bool) (r : A) (xs : List A)
      → find q xs ≡ some r
      → p r ≡ true
      → find q (filter p xs) ≡ some r
  find-filter p r [] e k = cc
  find-filter p r (x ∷ xs) e k = ground (arith, find-filter p r xs)

  pub find-append-some : (r : A) (xs ys : List A) → find q xs ≡ some r → find q (xs ++ ys) ≡ some r
  find-append-some r [] ys e = cc
  find-append-some r (x ∷ xs) ys e = ground (arith, find-append-some r xs ys)

  pub find-append-none : (xs ys : List A) → find q xs ≡ none → find q (xs ++ ys) ≡ find q ys
  find-append-none [] ys e = refl
  find-append-none (x ∷ xs) ys e = ground (arith, find-append-none xs ys)

  pub find-map :
      (f : A → A) (r : A) (xs : List A)
      → ((x : A) → q (f x) ≡ q x)
      → find q xs ≡ some r
      → find q (map f xs) ≡ some (f r)
  find-map f r [] same e = cc
  find-map f r (x ∷ xs) same e = ground (arith, same x, find-map f r xs same)

  pub find_sound : (r : A) (xs : List A) → find q xs ≡ some r → q r ≡ true
  find_sound r [] e = cc
  find_sound r (x ∷ xs) e = ground (arith, find_sound r xs)

  pub find-any :
      (p : A → Bool) (r : A) (xs : List A) → find q xs ≡ some r → p r ≡ true → any p xs ≡ true
  find-any p r [] e k = cc
  find-any p r (x ∷ xs) e k = ground (arith, find-any p r xs)

  pub find-none : (xs : List A) → All (λ x. q x ≡ false) xs → find q xs ≡ none
  find-none [] h = refl
  find-none (x ∷ xs) h = ground (arith, h.0, find-none xs h.1)

  pub none-All : (xs : List A) → find q xs ≡ none → All (λ x. q x ≡ false) xs
  none-All [] e = tt
  none-All (x ∷ xs) e = (ground (arith, e), none-All xs (ground (arith, e)))

module _ {ℓ κ} {A : Type ℓ} (P : A → Type κ) where
  pub All-find : (q : A → Bool) (r : A) (xs : List A) → All P xs → find q xs ≡ some r → P r
  All-find q r [] h e = cc
  All-find q r (x ∷ xs) h e = by_test (All-find q r xs h.1) (q x) refl
    where
      by_test : (find q xs ≡ some r → P r) → (b : Bool) → q x ≡ b → P r
      by_test later true t = subst P (ground (arith, t, e)) h.0
      by_test later false t = later (ground (arith, t, e))

  pub All-filter : (p : A → Bool) (xs : List A) → All P xs → All P (filter p xs)
  All-filter p [] h = tt
  All-filter p (x ∷ xs) h =
      elim (p x) as (λ b. All P (if b then x ∷ filter p xs else filter p xs)) [
        | true ↦ (h.0, All-filter p xs h.1)
        | false ↦ All-filter p xs h.1
      ]

  pub All-imp : (Q : A → Type κ) (xs : List A) → ((x : A) → P x → Q x) → All P xs → All Q xs
  All-imp Q [] f h = tt
  All-imp Q (x ∷ xs) f h = (f x h.0, All-imp Q xs f h.1)

  pub All-map :
      (Q : A → Type κ) (f : A → A) (xs : List A)
      → ((x : A) → P x → Q (f x))
      → All P xs
      → All Q (map f xs)
  All-map Q f [] k h = tt
  All-map Q f (x ∷ xs) k h = (k x h.0, All-map Q f xs k h.1)

  pub All-both : (Q : A → Type κ) (xs : List A) → All P xs → All Q xs → All (λ x. P x × Q x) xs
  All-both Q [] h k = tt
  All-both Q (x ∷ xs) h k = ((h.0, k.0), All-both Q xs h.1 k.1)

  -- What holds of the kept elements, by the test that keeps them.
  pub All-filter_test :
      (Q : A → Type κ) (p : A → Bool) (xs : List A)
      → ((x : A) → P x → p x ≡ true → Q x)
      → All P xs
      → All Q (filter p xs)
  All-filter_test Q p [] f h = tt
  All-filter_test Q p (x ∷ xs) f h = by_test (All-filter_test Q p xs f h.1) (p x) refl
    where
      by_test :
          All Q (filter p xs)
          → (b : Bool) → p x ≡ b
          → All Q (if b then x ∷ filter p xs else filter p xs)
      by_test rest true e = (f x h.0 e, rest)
      by_test rest false e = rest
