-- ===== src/Developer/Idempotency/Route.antt =====
-- What the interceptor of backend/src/modules/developer/v1/idempotency.interceptor.ts does with a request.
use conversa_forge.Prelude.{
  ℕ, leb, ◌&&◌, ◌||◌, not, Bool, true, false, List, [], ◌∷◌, all, Option, none, some, is_empty,
  Text, length, if◌then◌else◌,
}

-- `KEY_RE`: 1 to 255 printable ASCII characters.
unfoldable pub is_valid_key : Text → Bool
is_valid_key key =
    leb 1 (length key) && leb (length key) 255 && all (λ c. leb 0x21 c && leb c 0x7e) key

pub data Header : Type 0 where
  single : Text → Header
  several : List Text → Header

abbrev pub header_key : Header → Option Text
header_key (single key) = some key
header_key (several []) = none
header_key (several (key ∷ keys)) = some key

-- What the interceptor does with a request: hand it on, refuse its key, or run it under the key.
pub data Route : Type 0 where
  passes_on invalid_key : Route
  runs : (scope : ℕ) (key : Text) → Route

-- `intercept`
unfoldable pub intercept : (is_http is_post : Bool) → Option Header → (scope : Option ℕ) → Route
unfolding is_valid_key
intercept false is_post header scope = passes_on
intercept true is_post none scope = passes_on
intercept true is_post (some header) scope =
    if not is_post then passes_on else elim (header_key header) [
      | none ↦ invalid_key
      | some key ↦
          if is_empty key || not (is_valid_key key)
          then invalid_key
          else elim scope [ none ↦ passes_on | some workspace ↦ runs workspace key ]
    ]
