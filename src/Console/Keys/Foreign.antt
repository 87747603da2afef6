-- ===== src/Console/Keys/Foreign.antt =====
-- Whose keys the handlers of apps/web/app/api/api-keys/route.ts and apps/web/app/actions/api-keys.ts
-- change.
use openwrapper.Prelude.{
  ℕ, zero, suc, ◌||◌, ◌≡◌, refl, Bool, true, Option, none, some, List, [], ◌∷◌, ◌++◌, keep, arith,
  Bool-cases, inl, inr,
}
use openwrapper.Js.Text.{Text, ◌===◌, ===_refl}
use openwrapper.Js.Json.{Json}
use openwrapper.Store.{Mode, ApiKeyRow, delete_where}
use openwrapper.Access.Telemetry.{is_foreign}
use openwrapper.Console.Session.{SessionUser, Console, ConsoleEnv, Result}
use openwrapper.Console.Keys.{
  any, js_number, codes, get, trim, is_true, is_null_json, between, suc, after_insert, IssuedKey,
  issue_api_key, delete_body, delete_numbered, create_key_schema, post_parsed, KeyReply, is_key_of,
  is_owner, get_keys, post_keys, delete_keys, create_api_key, revoke_api_key, remove_all_keys,
  delete_keys_where, create_key, insert_key, row_of,
}

-- A call of one of the handlers.
pub data KeyCall : Type 0 where
  gets : (param : Option Text) → KeyCall
  posts : (body : Option Json) → KeyCall
  deletes : (body : Option Json) → KeyCall
  creates : (name : Text) → (mode : Mode) → KeyCall
  revokes : (id : Option ℕ) → KeyCall
  removes_all : KeyCall

keep_own :
    (user : Text) (rows : List ApiKeyRow) (row : ApiKeyRow)
    → (row.user_id === user) ≡ true
    → keep (is_foreign user) (rows ++ row ∷ []) ≡ keep (is_foreign user) rows
unfolding keep
keep_own user [] row h = rw h refl
keep_own user (r ∷ rows) row h = ground (arith, keep_own user rows row h)

keep-delete_where :
    (user : Text) (p : ApiKeyRow → Bool) (rows : List ApiKeyRow)
    → ((k : ApiKeyRow) → p k ≡ true → (k.user_id === user) ≡ true)
    → keep (is_foreign user) (delete_where p rows) ≡ keep (is_foreign user) rows
unfolding keep delete_where
keep-delete_where user p [] h = refl
keep-delete_where user p (r ∷ rows) h = ground (arith, h r, keep-delete_where user p rows h)

-- Only keys of the user change.
pub record IsOwnChange (user : Text) (c c' : Console) : Type 0 where
  pub keys : keep (is_foreign user) c'.world.api_keys ≡ keep (is_foreign user) c.world.api_keys
  pub payments : c'.world.payments ≡ c.world.payments
  pub requests : c'.world.api_requests ≡ c.world.api_requests
  pub events : c'.world.webhook_events ≡ c.world.webhook_events
  pub settings : c'.settings ≡ c.settings

module _ (number_of : Text → Option ℕ) (env : ConsoleEnv) where
  abbrev pub run_call : Option SessionUser → KeyCall → Console → Result KeyReply
  run_call session (gets param) c = get_keys env session param c
  run_call session (posts body) c = post_keys env session body c
  run_call session (deletes body) c = delete_keys number_of env session body c
  run_call session (creates name mode) c = create_api_key env session name mode c
  run_call session (revokes id) c = revoke_api_key env session id c
  run_call session removes_all c = remove_all_keys env session c

  same-IsOwnChange : (user : Text) (c : Console) → IsOwnChange user c c
  same-IsOwnChange user c = record {
    keys = refl;
    payments = refl;
    requests = refl;
    events = refl;
    settings = refl;
  }

  delete_keys_where-IsOwnChange :
      (user : Text) (p : ApiKeyRow → Bool) (c : Console)
      → ((k : ApiKeyRow) → p k ≡ true → (k.user_id === user) ≡ true)
      → IsOwnChange user c (delete_keys_where env user p c).1
  delete_keys_where-IsOwnChange user p c h = elim (Bool-cases env.db_fails) [
    | inl down ↦ rw down (same-IsOwnChange user c)
    | inr up ↦ rw up (record {
      keys = keep-delete_where user p c.world.api_keys h;
      payments = refl;
      requests = refl;
      events = refl;
      settings = refl;
    })
  ]

  after_insert-IsOwnChange :
      (user : Text) (m : Option Mode) (issued : IssuedKey) (row : ApiKeyRow) (c : Console)
      → (row.user_id === user) ≡ true
      → IsOwnChange user c (after_insert user m issued row c (insert_key env row c)).1
  after_insert-IsOwnChange user m issued row c h =
      elim (Bool-cases
        (env.db_fails || any (λ (k : ApiKeyRow). k.key_hash === row.key_hash) c.world.api_keys)) [
          | inl failed ↦ rw failed (same-IsOwnChange user c)
          | inr fresh ↦ rw fresh (record {
            keys = keep_own user c.world.api_keys row h;
            payments = refl;
            requests = refl;
            events = refl;
            settings = refl;
          })
        ]

  create_key-IsOwnChange :
      (user : Text) (m : Option Mode) (name : Text) (mode : Mode) (c : Console)
      → IsOwnChange user c (create_key env user m name mode c).1
  unfolding create_key
  create_key-IsOwnChange user m name mode c =
      let issued = issue_api_key env.sha256 env.random_secret mode in
      after_insert-IsOwnChange user m issued (row_of env user name issued) c (===_refl user)

  post_parsed-IsOwnChange :
      (user : Text) (o : Option (Text × Mode)) (c : Console)
      → IsOwnChange user c (post_parsed env user o c).1
  post_parsed-IsOwnChange user none c = same-IsOwnChange user c
  post_parsed-IsOwnChange user (some (name, mode)) c =
      create_key-IsOwnChange user (some mode) name mode c

  is_key_of-owner :
      (id : ℕ) (user : Text) (k : ApiKeyRow)
      → is_key_of id user k ≡ true
      → (k.user_id === user) ≡ true
  is_key_of-owner id user k h = ground arith

  delete_numbered-IsOwnChange :
      (user message : Text) (id : Option ℕ) (c : Console)
      → IsOwnChange user c (delete_numbered env user message id c).1
  delete_numbered-IsOwnChange user message none c = same-IsOwnChange user c
  delete_numbered-IsOwnChange user message (some zero) c = same-IsOwnChange user c
  delete_numbered-IsOwnChange user message (some (suc n)) c =
      delete_keys_where-IsOwnChange user (is_key_of (suc n) user) c (is_key_of-owner (suc n) user)

  delete_body-IsOwnChange :
      (user : Text) (body : Json) (c : Console)
      → IsOwnChange user c (delete_body number_of env user body c).1
  delete_body-IsOwnChange user body c = elim (Bool-cases (is_null_json body)) [
    | inl empty ↦ rw empty (same-IsOwnChange user c)
    | inr given ↦ elim (Bool-cases (is_true (get body (codes "all")))) [
      | inl all ↦ rw (given, all) (delete_keys_where-IsOwnChange user (is_owner user) c (λ k h. h))
      | inr one ↦
          rw (given, one)
            (delete_numbered-IsOwnChange user _ (js_number number_of (get body (codes "id"))) c)
    ]
  ]

  run_call-owned :
      (user : SessionUser) (call : KeyCall) (c : Console)
      → IsOwnChange user.id c (run_call (some user) call c).1
  unfolding get_keys post_keys delete_keys create_api_key revoke_api_key remove_all_keys
  run_call-owned user (gets param) c = elim (Bool-cases env.db_fails) [
    | inl down ↦ rw down (same-IsOwnChange user.id c)
    | inr up ↦ rw up (same-IsOwnChange user.id c)
  ]
  run_call-owned user (posts none) c = same-IsOwnChange user.id c
  run_call-owned user (posts (some body)) c =
      post_parsed-IsOwnChange user.id (create_key_schema body) c
  run_call-owned user (deletes none) c = same-IsOwnChange user.id c
  run_call-owned user (deletes (some body)) c = delete_body-IsOwnChange user.id body c
  run_call-owned user (creates name mode) c = elim (Bool-cases (between 2 40 (trim name))) [
    | inl good ↦ rw good (create_key-IsOwnChange user.id none (trim name) mode c)
    | inr bad ↦ rw bad (same-IsOwnChange user.id c)
  ]
  run_call-owned user (revokes id) c = delete_numbered-IsOwnChange user.id _ id c
  run_call-owned user removes_all c =
      delete_keys_where-IsOwnChange user.id (is_owner user.id) c (λ k h. h)

  run_call-signed_out : (call : KeyCall) (c : Console) → (run_call none call c).1 ≡ c
  unfolding get_keys post_keys delete_keys create_api_key revoke_api_key remove_all_keys
  run_call-signed_out (gets param) c = refl
  run_call-signed_out (posts body) c = refl
  run_call-signed_out (deletes body) c = refl
  run_call-signed_out (creates name mode) c = refl
  run_call-signed_out (revokes id) c = refl
  run_call-signed_out removes_all c = refl

  -- What a session may change.
  abbrev pub IsAllowed : Option SessionUser → Console → Console → Type 0
  IsAllowed none c c' = c' ≡ c
  IsAllowed (some user) c c' = IsOwnChange user.id c c'

  -- No call on API keys changes a key of another user, a payment, a request record, a webhook event or
  -- the settings; without a session it changes nothing at all.
  pub run_call-IsAllowed :
      (session : Option SessionUser) (call : KeyCall) (c : Console)
      → IsAllowed session c (run_call session call c).1
  run_call-IsAllowed none call c = run_call-signed_out call c
  run_call-IsAllowed (some user) call c = run_call-owned user call c
