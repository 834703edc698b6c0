-- ===== src/Access/Links.antt =====
-- The share links of backend/src/modules/access/share-links.service.ts, and the use of a link in
-- public-run.service.ts beside it: `linkStatus`, `assertLinkActive`, the updates of a link's row.
pub mod Laws
use conversa_forge.Prelude.{
  ℕ, zero, suc, ◌+◌, ◌-◌, leb, ltb, ◌&&◌, Bool, true, false, Option, none, some, List, [], ◌∷◌,
  is_some, get_or_else, if◌then◌else◌,
}

pub data LinkMode : Type 0 where
  multi_use one_time : LinkMode

pub data LinkStatus : Type 0 where
  active revoked expired exhausted : LinkStatus

-- The columns of the row that decide on its use.
pub record ShareLink : Type 0 where
  pub mode : LinkMode
  pub revoked_at : Option ℕ
  pub expires_at : Option ℕ
  pub max_uses : Option ℕ
  pub use_count : ℕ

abbrev has_expired : ℕ → Option ℕ → Bool
has_expired now none = false
has_expired now (some at) = leb at now

abbrev is_used_up : ℕ → Option ℕ → Bool
is_used_up count none = false
is_used_up count (some limit) = leb limit count

-- `linkStatus`
unfoldable pub link_status : ShareLink → ℕ → LinkStatus
link_status l now =
    if is_some l.revoked_at
    then revoked
    else if has_expired now l.expires_at
    then expired
    else if is_used_up l.use_count l.max_uses
    then exhausted
    else active

pub data Gone : Type 0 where
  link_revoked link_expired : Gone
  link_exhausted : (one_time : Bool) → Gone

abbrev is_one : Option ℕ → Bool
is_one (some (suc zero)) = true
is_one _ = false

-- `assertLinkActive`: the error to throw, if any.
unfoldable pub assert_link_active : ShareLink → ℕ → Option Gone
assert_link_active l now =
    if is_some l.revoked_at
    then some link_revoked
    else if has_expired now l.expires_at
    then some link_expired
    else if is_used_up l.use_count l.max_uses
    then some (link_exhausted (is_one l.max_uses))
    else none

abbrev not_revoked : Option ℕ → Bool
not_revoked none = true
not_revoked (some at) = false

abbrev none_or_later : ℕ → Option ℕ → Bool
none_or_later now none = true
none_or_later now (some at) = ltb now at

abbrev none_or_above : ℕ → Option ℕ → Bool
none_or_above count none = true
none_or_above count (some limit) = ltb count limit

-- The conditional update that consumes one use: nothing where it changes no row.
unfoldable pub consume : ShareLink → ℕ → Option ShareLink
consume l now =
    if not_revoked l.revoked_at
      && none_or_later now l.expires_at
      && none_or_above l.use_count l.max_uses
    then some (record l { use_count = l.use_count + 1 })
    else none

-- The update that gives a use back, of a count above 0.
unfoldable pub give_back : ShareLink → ShareLink
give_back l = if ltb 0 l.use_count then record l { use_count = l.use_count - 1 } else l

-- The maximum that `create` stores.
unfoldable pub created_max_uses : LinkMode → Option ℕ → Option ℕ
created_max_uses one_time max_uses = some 1
created_max_uses multi_use max_uses = max_uses

-- What `update` is asked for: nothing keeps a column.
pub record LinkUpdate : Type 0 where
  pub mode : Option LinkMode
  pub max_uses : Option (Option ℕ)
  pub expires_at : Option (Option ℕ)

unfoldable pub updated_max_uses : LinkMode → Option (Option ℕ) → ShareLink → Option ℕ
updated_max_uses one_time asked cur = some 1
updated_max_uses multi_use (some max_uses) cur = max_uses
updated_max_uses multi_use none cur = elim cur.mode [ one_time ↦ none | multi_use ↦ cur.max_uses ]

pub data UpdateError : Type 0 where
  conflict expiry_in_past : UpdateError

pub data UpdateResult : Type 0 where
  updated : ShareLink → UpdateResult
  refused : UpdateError → UpdateResult

abbrev passed : ℕ → Option (Option ℕ) → Bool
passed now (some (some at)) = leb at now
passed now _ = false

-- `update`, once the rest of the settings is valid.
unfoldable pub update : LinkUpdate → ℕ → ShareLink → UpdateResult
unfolding updated_max_uses
update input now cur =
    if is_some cur.revoked_at
    then refused conflict
    else if passed now input.expires_at
    then refused expiry_in_past
    else updated (record cur {
      mode = get_or_else input.mode cur.mode;
      expires_at = get_or_else input.expires_at cur.expires_at;
      max_uses = updated_max_uses (get_or_else input.mode cur.mode) input.max_uses cur;
    })

-- `revoke`: a link that is revoked keeps its time.
unfoldable pub revoke : ℕ → ShareLink → ShareLink
revoke now cur = if is_some cur.revoked_at then cur else record cur { revoked_at = some now }

-- A link with the starts that hold one of its uses and the sessions they have made.
pub record LinkUse : Type 0 where
  pub link : ShareLink
  pub starting : ℕ
  pub sessions : ℕ

-- What happens to a link: a start consumes a use, makes its session or fails; the creator revokes the
-- link or changes it.
pub data LinkEvent : Type 0 where
  consumes : (now : ℕ) → LinkEvent
  creates fails : LinkEvent
  revokes : (now : ℕ) → LinkEvent
  updates : (now : ℕ) → LinkUpdate → LinkEvent

abbrev after_consume : Option ShareLink → LinkUse → LinkUse
after_consume none u = u
after_consume (some l) u = record u { link = l; starting = u.starting + 1 }

abbrev after_update : UpdateResult → ShareLink → ShareLink
after_update (updated l) cur = l
after_update (refused e) cur = cur

unfoldable pub on_link : LinkEvent → LinkUse → LinkUse
unfolding consume give_back revoke update
on_link (consumes now) u = after_consume (consume u.link now) u
on_link creates u =
    if ltb 0 u.starting
    then record u { starting = u.starting - 1; sessions = u.sessions + 1 }
    else u
on_link fails u =
    if ltb 0 u.starting then record u { link = give_back u.link; starting = u.starting - 1 } else u
on_link (revokes now) u = record u { link = revoke now u.link }
on_link (updates now input) u = record u { link = after_update (update input now u.link) u.link }

unfoldable pub on_events : List LinkEvent → LinkUse → LinkUse
unfolding on_link
on_events [] u = u
on_events (e ∷ es) u = on_events es (on_link e u)
