-- ===== src/Access/Tests.antt =====
-- Keys and bodies on concrete inputs.
use mathlib.Core.List.{Memᴰ}
use openwrapper.Prelude.{◌≡◌, ◌⊎◌, refl, true, none, some, [], ◌∷◌, leb, length, if◌then◌else◌}
use openwrapper.Js.Text.{◌===◌, member, codes, truthy, concat}
use openwrapper.Store.{RequestRecord, World, ApiKeyRow, live}
use openwrapper.Store.{first_match}
use openwrapper.Store.Laws.{first_sql}
use openwrapper.Access.ApiKeys.{get_api_key_environment, hash_api_key}
use openwrapper.Access.Authenticator.{
  ambient_list, record_api_request, AuthKey, authenticate_token, sandbox_user,
}
use openwrapper.Access.BodyReader.{body_ok, too_large, read_limited_text_body}
use openwrapper.Access.Keys.{IsKeyOf, IsSandboxToken, authenticate_token_sound}
use openwrapper.Access.Telemetry.{IsRecorded, IsOwnTouch, record_api_request-IsOwnTouch}
use openwrapper.Access.Bodies.{read_limited_text_body_eq}

abbrev key_row : ApiKeyRow
key_row = record {
  id = 4;
  user_id = codes "u1";
  name = codes "n";
  key_hash = codes "ow_live_x";
  prefix = codes "ow_live_x";
  last_four = codes "ve_x";
  environment = codes "live";
  created_at = 0;
  last_used_at = none;
  revoked_at = none;
}

abbrev pub one_key : World
one_key = record {
  payments = [];
  api_keys = key_row ∷ [];
  api_requests = [];
  webhook_events = [];
  scheduled = [];
}

abbrev live_key : AuthKey
live_key = record { id = 4; user_id = codes "u1"; prefix = codes "ow_live_x"; environment = live }

authenticate_token_sound_example :
    (truthy (codes "ow_live_x") ≡ true)
    × ((IsSandboxToken (ambient_list first_sql (λ s. s) none) (codes "ow_live_x")
          × (live_key.id ≡ 0)
          × (live_key.user_id ≡ sandbox_user)
          × (live_key.environment ≡ get_api_key_environment (codes "ow_live_x")))
        ⊎ ((row : ApiKeyRow) × Memᴰ row one_key.api_keys
            × (row.key_hash ≡ hash_api_key (λ s. s) (codes "ow_live_x"))
            × (row.revoked_at ≡ none)
            × IsKeyOf live_key row))
unfolding authenticate_token hash_api_key first_match ◌===◌ member
authenticate_token_sound_example =
    authenticate_token_sound first_sql (λ s. s) none (codes "ow_live_x") one_key live_key refl

read_limited_text_body_eq_example :
    read_limited_text_body (λ bytes. bytes) 3 (some (codes "ab" ∷ codes "c" ∷ [])) ≡ (
      if leb (length (concat (codes "ab" ∷ codes "c" ∷ []))) 3
      then body_ok (concat (codes "ab" ∷ codes "c" ∷ []))
      else too_large)
read_limited_text_body_eq_example =
    read_limited_text_body_eq (λ bytes. bytes) 3 (codes "ab" ∷ codes "c" ∷ [])

-- A request with the key of `key_row`, recorded by a clock that was set back.
abbrev list_request : RequestRecord
list_request = record {
  user_id = codes "u1";
  api_key_id = some 4;
  method = codes "GET";
  endpoint = codes "/api/v1/payments";
  status_code = 200;
  started_at = 90;
  routing_latency_ms = none;
  environment = some live;
}

record_api_request-IsOwnTouch_example :
    IsRecorded list_request one_key (record_api_request 7 80 list_request one_key)
    × IsOwnTouch (codes "u1") one_key (record_api_request 7 80 list_request one_key)
record_api_request-IsOwnTouch_example = record_api_request-IsOwnTouch 7 80 list_request one_key
