-- ===== src/Prelude/Sorting.antt =====
-- The stable sort of `Array.prototype.sort`, by a test that says whether the first of two neighbours
-- may stay before the second.
use Prim.Native.Nat.{suc}
use mathlib.Core.Path.{◌≡◌, refl}
use mathlib.Core.Logic.{◌⊎◌, inl, inr, ◌↔◌}
use mathlib.Core.List.Perm
use mathlib.Core.Bool.{true, false, Bool}
use mathlib.Core.List.{List, [], ◌∷◌, Perm}
use native.Mathlib.Omega.{arith}
use conversa_forge.Prelude.Tests.{if◌then◌else◌}
use conversa_forge.Prelude.Lists.{length, All}

module _ {ℓ} {A : Type ℓ} (before : A → A → Bool) where
  abbrev pub insert : A → List A → List A
  insert x [] = x ∷ []
  insert x (y ∷ ys) = let rest = insert x ys in if before x y then x ∷ y ∷ ys else y ∷ rest

  abbrev pub sort : List A → List A
  sort [] = []
  sort (x ∷ xs) = insert x (sort xs)

  pub length-insert : (x : A) (xs : List A) → length (insert x xs) ≡ suc (length xs)
  length-insert x [] = refl
  length-insert x (y ∷ ys) = ground (arith, length-insert x ys)

  pub length-sort : (xs : List A) → length (sort xs) ≡ length xs
  length-sort [] = refl
  length-sort (x ∷ xs) = ground (arith, length-insert x (sort xs), length-sort xs)

  insert-Perm : (x : A) (xs : List A) → Perm (insert x xs) (x ∷ xs)
  insert-Perm x [] = Perm.rfl
  insert-Perm x (y ∷ ys) = by_test (before x y) (insert-Perm x ys)
    where
      by_test :
          (b : Bool)
          → Perm (insert x ys) (x ∷ ys)
          → Perm (if b then x ∷ y ∷ ys else y ∷ insert x ys) (x ∷ y ∷ ys)
      by_test true same = Perm.rfl
      by_test false same = Perm.trans (Perm.cons y same) (Perm.swap x y ys)

  -- Sorting keeps the elements.
  pub sort-Perm : (xs : List A) → Perm (sort xs) xs
  sort-Perm [] = Perm.rfl
  sort-Perm (x ∷ xs) = Perm.trans (insert-Perm x (sort xs)) (Perm.cons x (sort-Perm xs))

  module _ {κ} (P : A → Type κ) where
    insert-All : (x : A) (xs : List A) → All P (insert x xs) ↔ (P x × All P xs)
    insert-All x [] = (λ h. h, λ h. h)
    insert-All x (y ∷ ys) = by_test (before x y) (insert-All x ys)
      where
        by_test :
            (b : Bool)
            → All P (insert x ys) ↔ (P x × All P ys)
            → All P (if b then x ∷ y ∷ ys else y ∷ insert x ys) ↔ (P x × All P (y ∷ ys))
        by_test true same = (λ h. h, λ h. h)
        by_test false (to, from) =
            (λ h. ((to h.1).0, (h.0, (to h.1).1)), λ h. (h.1.0, from (h.0, h.1.1)))

    pub sort-All : (xs : List A) → All P (sort xs) ↔ All P xs
    sort-All [] = (λ h. h, λ h. h)
    sort-All (x ∷ xs) = (
      λ h. let (here, later) = (insert-All x (sort xs)).0 h in (here, (sort-All xs).0 later),
      λ h. (insert-All x (sort xs)).1 (h.0, (sort-All xs).1 h.1),
    )

  -- An element may stay before all of a list.
  abbrev pub Precedes : A → List A → Type 0
  Precedes x [] = Unit
  Precedes x (y ∷ ys) = (before x y ≡ true) × Precedes x ys

  -- Every element may stay before all that follow it.
  abbrev pub IsSorted : List A → Type 0
  IsSorted [] = Unit
  IsSorted (x ∷ xs) = Precedes x xs × IsSorted xs

  if-Precedes :
      (y : A) (b : Bool) (xs ys : List A)
      → Precedes y xs
      → Precedes y ys
      → Precedes y (if b then xs else ys)
  if-Precedes y true xs ys p q = p
  if-Precedes y false xs ys p q = q

  insert-Precedes :
      (y x : A) (ys : List A) → before y x ≡ true → Precedes y ys → Precedes y (insert x ys)
  insert-Precedes y x [] h p = (h, tt)
  insert-Precedes y x (z ∷ zs) h p =
      if-Precedes y (before x z) (x ∷ z ∷ zs) (z ∷ insert x zs) (h, p)
        (p.0, insert-Precedes y x zs h p.1)

  module _ (total : (x y : A) → (before x y ≡ true) ⊎ (before y x ≡ true))
      (transitive : (x y z : A) → before x y ≡ true → before y z ≡ true → before x z ≡ true) where
    Precedes-le : (x y : A) (ys : List A) → before x y ≡ true → Precedes y ys → Precedes x ys
    Precedes-le x y [] h p = tt
    Precedes-le x y (z ∷ zs) h p = (transitive x y z h p.0, Precedes-le x y zs h p.1)

    if-IsSorted :
        (x z : A) (b : Bool) (xs ys : List A)
        → before x z ≡ b
        → (before x z ≡ true → IsSorted xs)
        → (before z x ≡ true → IsSorted ys)
        → IsSorted (if b then xs else ys)
    if-IsSorted x z true xs ys e f g = f e
    if-IsSorted x z false xs ys e f g = elim (total x z) [ inl h ↦ cc | inr h ↦ g h ]

    insert-IsSorted : (x : A) (ys : List A) → IsSorted ys → IsSorted (insert x ys)
    insert-IsSorted x [] h = (tt, tt)
    insert-IsSorted x (z ∷ zs) h =
        if-IsSorted x z (before x z) (x ∷ z ∷ zs) (z ∷ insert x zs) refl
          (λ e. ((e, Precedes-le x z zs e h.0), h))
          (λ e. (insert-Precedes z x zs e h.0, insert-IsSorted x zs h.1))

    pub sort-IsSorted : (xs : List A) → IsSorted (sort xs)
    sort-IsSorted [] = tt
    sort-IsSorted (x ∷ xs) = insert-IsSorted x (sort xs) (sort-IsSorted xs)
