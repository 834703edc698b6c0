-- ===== src/Developer/Idempotency/Unique.antt =====
-- The table has one record for a key, and the claim does what its states call for.
use conversa_forge.Prelude.{
  ℕ, ◌<◌, ◌≡◌, ◌≢◌, refl, sym, ◌∙◌, Bool, true, false, List, [], ◌∷◌, ◌++◌, filter, map, All, some,
  Text, text_eq_refl, text_eq_sym, arith, All-filter, All-find, All-append, All-imp, All-map,
  if◌then◌else◌,
}
use mathlib.Core.Path.{subst}
use conversa_forge.Developer.Idempotency.{
  IdempotencyRecord, matches, find_unique, StoredBody, answered_record,
}
use conversa_forge.Developer.Idempotency.Keeps.{IsKept}

module _ {B D : Type 0} where
  -- No two records of the table share their id, or their scope and key.
  abbrev pub HasUniqueKeys : List (IdempotencyRecord B D) → Type 0
  HasUniqueKeys [] = Unit
  HasUniqueKeys (r ∷ table) =
      All (λ x. (x.id ≢ r.id) × (matches r.scope r.key x ≡ false)) table × HasUniqueKeys table

  pub filter-HasUniqueKeys :
      (p : IdempotencyRecord B D → Bool) (table : List (IdempotencyRecord B D))
      → HasUniqueKeys table
      → HasUniqueKeys (filter p table)
  filter-HasUniqueKeys p [] h = tt
  filter-HasUniqueKeys p (r ∷ table) h =
      elim (p r) as (λ b. HasUniqueKeys (if b then r ∷ filter p table else filter p table)) [
        | true ↦ (All-filter _ p table h.0, filter-HasUniqueKeys p table h.1)
        | false ↦ filter-HasUniqueKeys p table h.1
      ]

  matches_sym : (r x : IdempotencyRecord B D) → matches r.scope r.key x ≡ matches x.scope x.key r
  matches_sym r x = ground (arith, text_eq_sym r.key x.key)

  pub append-HasUniqueKeys :
      (x : IdempotencyRecord B D) (table : List (IdempotencyRecord B D))
      → All (λ r. (r.id < x.id) × (matches x.scope x.key r ≡ false)) table
      → HasUniqueKeys table
      → HasUniqueKeys (table ++ x ∷ [])
  append-HasUniqueKeys x [] apart h = (tt, tt)
  append-HasUniqueKeys x (r ∷ table) apart h = (
    All-append _ table _ h.0 ((λ e. omega (arith, e, apart.0.0), matches_sym r x ∙ apart.0.1), tt),
    append-HasUniqueKeys x table apart.1 h.1,
  )

  pub map-HasUniqueKeys :
      (id status : ℕ) (body : StoredBody B D) (table : List (IdempotencyRecord B D))
      → HasUniqueKeys table
      → HasUniqueKeys (map (answered_record id status body) table)
  map-HasUniqueKeys id status body [] h = tt
  map-HasUniqueKeys id status body (r ∷ table) h = (
    All-map _ _ (answered_record id status body) table
        (λ x k. ((λ e. k.0 (ground (arith, e))), ground (arith, k.1))) h.0,
    map-HasUniqueKeys id status body table h.1,
  )

  -- A record that is found is the only one of its key and of its id.
  pub found-IsKept :
      (scope : ℕ) (key : Text) (r : IdempotencyRecord B D) (table : List (IdempotencyRecord B D))
      → HasUniqueKeys table
      → find_unique scope key table ≡ some r
      → IsKept r table
  found-IsKept scope key r [] h e = absurd (ground (arith, e))
  found-IsKept scope key r (x ∷ table) h e =
      by_test (matches scope key x) refl (found-IsKept scope key r table h.1)
    where
      same : matches scope key x ≡ true → find_unique scope key (x ∷ table) ≡ some r → x ≡ r
      same t e' = ground (arith, t, e')

      by_test :
          (b : Bool)
          → matches scope key x ≡ b
          → (find_unique scope key table ≡ some r → IsKept r table)
          → IsKept r (x ∷ table)
      by_test true t later =
          subst (λ y. IsKept y (x ∷ table)) (same t e)
            (record {
              found = ground (arith, text_eq_refl x.key);
              alone = (
                (λ m. refl, λ e'. ground (arith, text_eq_refl x.key)),
                All-imp _ _ table
                    (λ y k. (λ m. absurd (ground (arith, k.1, m)), λ e'. absurd (k.0 e'))) h.0,
              );
            })
      by_test false t later = with_kept (later (ground (arith, t, e)))
        where
          with_kept : IsKept r table → IsKept r (x ∷ table)
          with_kept k =
              let apart = All-find _ (matches r.scope r.key) r table h.0 k.found in
              record {
                found = ground (arith, k.found, apart.1, matches_sym x r);
                alone = (
                  (
                    λ m. absurd (ground (arith, m, apart.1, matches_sym x r)),
                    λ e'. absurd (apart.0 (sym e')),
                  ),
                  k.alone,
                );
              }
