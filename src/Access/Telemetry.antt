-- ===== src/Access/Telemetry.antt =====
-- What `recordApiRequest` of apps/web/lib/api-request-authenticator.ts changes.
use openwrapper.Access.Authenticator.{record_api_request, touch}
use openwrapper.Js.Text.{Text, ◌===◌}
use openwrapper.Prelude.{
  ◌&&◌, ◌==◌, ℕ, ◌≡◌, ◌≤◌, refl, Bool, not, Option, none, some, List, [], ◌∷◌, ◌++◌, map, keep,
  arith, Bool-cases, inl, inr,
}
use openwrapper.Store.{ApiKeyRow, ApiRequestRow, RequestRecord, World, update_where}

-- A key of another account than `user`.
abbrev pub is_foreign : Text → ApiKeyRow → Bool
is_foreign user k = not (k.user_id === user)

-- A key without the time of its last use.
abbrev pub untimed : ApiKeyRow → ApiKeyRow
untimed k = record k { last_used_at = none }

touch-foreign :
    (id : Option ℕ) (user : Text) (now : ℕ) (keys : List ApiKeyRow)
    → keep (is_foreign user) (touch id user now keys) ≡ keep (is_foreign user) keys
unfolding keep update_where
touch-foreign none user now keys = refl
touch-foreign (some id) user now [] = refl
touch-foreign (some id) user now (k ∷ keys) = ground (arith, touch-foreign (some id) user now keys)

touch-untimed :
    (id : Option ℕ) (user : Text) (now : ℕ) (keys : List ApiKeyRow)
    → map untimed (touch id user now keys) ≡ map untimed keys
unfolding update_where
touch-untimed none user now keys = refl
touch-untimed (some id) user now [] = refl
touch-untimed (some id) user now (k ∷ keys) = elim (Bool-cases (k.id == id && k.user_id === user)) [
  | inl e ↦ rw (e, touch-untimed (some id) user now keys)
  | inr e ↦ rw (e, touch-untimed (some id) user now keys)
]

-- One row more, of the account, for the endpoint, and with a latency of at least 1 ms.
abbrev pub IsRecorded : RequestRecord → World → World → Type 0
IsRecorded r before after =
    (row : ApiRequestRow) × ((after.api_requests ≡ before.api_requests ++ row ∷ [])
      × (row.user_id ≡ r.user_id)
      × (row.endpoint ≡ r.endpoint)
      × (1 ≤ row.latency_ms))

-- Of the other tables only times of use changed, and only of keys of the account.
abbrev pub IsOwnTouch : Text → World → World → Type 0
IsOwnTouch user before after =
    (after.payments ≡ before.payments)
    × (after.webhook_events ≡ before.webhook_events)
    × (keep (is_foreign user) after.api_keys ≡ keep (is_foreign user) before.api_keys)
    × (map untimed after.api_keys ≡ map untimed before.api_keys)

-- Recording a request adds one row for its account and endpoint, with a latency of at least 1 ms
-- whatever the clock says. It leaves payments, webhook events and every key of another account as they
-- were, and changes nothing of the account's own keys but the time of their last use.
pub record_api_request-IsOwnTouch :
    (now clock : ℕ) (r : RequestRecord) (w : World)
    → IsRecorded r w (record_api_request now clock r w)
      × IsOwnTouch r.user_id w (record_api_request now clock r w)
unfolding record_api_request
record_api_request-IsOwnTouch now clock r w = (
  (_, (refl, refl, refl, ground arith)),
  (refl, refl, touch-foreign _ r.user_id now w.api_keys, touch-untimed _ r.user_id now w.api_keys),
)
