-- ===== src/Console/Keys/Lifecycle.antt =====
-- The life of a key: created by apps/web/app/api/api-keys/route.ts, accepted by
-- apps/web/lib/api-request-authenticator.ts, and refused once it is removed.
use mathlib.Core.List.{take}
use openwrapper.Prelude.{
  ℕ, zero, suc, sym, ◌≡◌, refl, true, false, ◌||◌, Option, none, some, List, [], ◌∷◌, ◌++◌, any,
  arith, All, Bool-cases, inl, inr, ap, subst,
}
use openwrapper.Js.Json.{Json}
use openwrapper.Js.Text.{codes, ===_refl, truthy, Text, ◌===◌}
use openwrapper.Store.Select.{select_one-last, select_one-none_of, delete_where-last}
use openwrapper.Store.{Mode, live, test, mode_text, ApiKeyRow, Sql, delete_where}
use openwrapper.Access.ApiKeys.{key_of, issue_api_key, hash_api_key}
use openwrapper.Access.Authenticator.{
  key_of_row, ambient_list, is_sandbox_token, AuthKey, authenticate_token, usable, mode_of_row,
}
use openwrapper.Console.Session.{Console, ConsoleEnv, SessionUser}
use openwrapper.Console.Keys.{
  removed, delete_numbered, is_key_of, revoke_api_key, create_key_schema, with_keys, forget,
  refused, post_parsed, KeyView, post_keys, created, create_key, row_of, view_of,
}

-- No row with the hash means none that it opens.
fresh-usable :
    (hash : Text) (rows : List ApiKeyRow)
    → any (λ (k : ApiKeyRow). k.key_hash === hash) rows ≡ false
    → All (λ k. usable hash k ≡ false) rows
unfolding any
fresh-usable hash [] h = tt
fresh-usable hash (k ∷ rows) h = (ground arith, fresh-usable hash rows (ground arith))

mode_of_row-mode_text : (m : Mode) (prefix : Text) → mode_of_row (mode_text m) prefix ≡ m
unfolding ◌===◌
mode_of_row-mode_text live prefix = refl
mode_of_row-mode_text test prefix = refl

-- What a created key is, with the row of its hash.
record IsCreated (env : ConsoleEnv) (user : Text) (c c' : Console) (key : Text) (mode : Mode)
    : Type 0 where
  name : Text
  key_is : key ≡ (issue_api_key env.sha256 env.random_secret mode).key
  fresh :
      any (λ (k : ApiKeyRow). k.key_hash === hash_api_key env.sha256 key) c.world.api_keys ≡ false
  keys :
      c'.world.api_keys
      ≡ c.world.api_keys
        ++ row_of env user name (issue_api_key env.sha256 env.random_secret mode) ∷ []

created-injective :
    (k k' : Text) (v v' : KeyView) (m m' : Mode)
    → some (created k v m) ≡ some (created k' v' m')
    → (k' ≡ k) × (m ≡ m')
created-injective k k' v v' m m' h = (cc, cc)

inserted_sound :
    (env : ConsoleEnv) (user name : Text) (m : Option Mode) (md : Mode) (c c' : Console)
    (key : Text) (view : KeyView) (mode : Mode)
    → create_key env user m name md c ≡ (some (created key view mode), c')
    → IsCreated env user c c' key mode
unfolding create_key issue_api_key
inserted_sound env user name m md c c' key view mode h =
    let issued = issue_api_key env.sha256 env.random_secret md in
    let row = row_of env user name issued in
    elim (Bool-cases
      (env.db_fails || any (λ (k : ApiKeyRow). k.key_hash === row.key_hash) c.world.api_keys)) [
        | inl failed ↦
            let h' : (none, c) ≡ (some (created key view mode), c') = rw failed at h in
            let e : none ≡ some (created key view mode) = ap (λ p. p.0) h' in cc
        | inr fresh ↦
            let h' : (
              some (created issued.key (view_of row) md),
              forget user m (with_keys (c.world.api_keys ++ row ∷ []) c),
            )
                ≡ (some (created key view mode), c') =
              rw fresh at h in
            let (key_is, same) =
              created-injective issued.key key (view_of row) view md mode (ap (λ p. p.0) h') in
            let keys = ap (λ p. p.1.world.api_keys) h' in
            subst (λ x. IsCreated env user c c' key x) same
              (record {
                name = name;
                key_is = key_is;
                fresh = rw key_is (ground arith);
                keys = sym keys;
              })
      ]

parsed_sound :
    (env : ConsoleEnv) (user : Text) (o : Option (Text × Mode)) (c c' : Console) (key : Text)
    (view : KeyView) (mode : Mode)
    → post_parsed env user o c ≡ (some (created key view mode), c')
    → IsCreated env user c c' key mode
parsed_sound env user none c c' key view mode h =
    let e : some (refused 400 _) ≡ some (created key view mode) = ap (λ p. p.0) h in cc
parsed_sound env user (some (name, md)) c c' key view mode h =
    inserted_sound env user name (some md) md c c' key view mode h

created_sound :
    (env : ConsoleEnv) (user : SessionUser) (body : Option Json) (c c' : Console) (key : Text)
    (view : KeyView) (mode : Mode)
    → post_keys env (some user) body c ≡ (some (created key view mode), c')
    → IsCreated env user.id c c' key mode
unfolding post_keys
created_sound env user none c c' key view mode h =
    let e : some (refused 400 _) ≡ some (created key view mode) = ap (λ p. p.0) h in cc
created_sound env user (some body) c c' key view mode h =
    parsed_sound env user.id (create_key_schema body) c c' key view mode h

-- The key that the service knows for the token.
abbrev pub key_for : ConsoleEnv → Text → Text → Mode → AuthKey
key_for env user key mode = record {
  id = env.serial;
  user_id = user;
  prefix = take 12 key;
  environment = mode;
}

usable-row_of :
    (env : ConsoleEnv) (user name key : Text) (mode : Mode)
    → key ≡ (issue_api_key env.sha256 env.random_secret mode).key
    → usable
        (hash_api_key env.sha256 key)
        (row_of env user name (issue_api_key env.sha256 env.random_secret mode))
      ≡ true
unfolding issue_api_key
usable-row_of env user name key mode e =
    rw (e, ===_refl (hash_api_key env.sha256 (key_of mode env.random_secret))) refl

truthy-key :
    (env : ConsoleEnv) (key : Text) (mode : Mode)
    → key ≡ (issue_api_key env.sha256 env.random_secret mode).key
    → truthy key ≡ true
unfolding issue_api_key
truthy-key env key mode e = rw e refl

row-known :
    (env : ConsoleEnv) (user name key : Text) (mode : Mode)
    → key ≡ (issue_api_key env.sha256 env.random_secret mode).key
    → key_of_row (some (row_of env user name (issue_api_key env.sha256 env.random_secret mode)))
      ≡ some (key_for env user key mode)
unfolding issue_api_key
row-known env user name key mode e =
    rw (e, mode_of_row-mode_text mode (take 12 (key_of mode env.random_secret))) refl

created-authenticate :
    (sql : Sql) (ambient : Option Text) (env : ConsoleEnv) (user : Text) (c c' : Console)
    (key : Text) (mode : Mode)
    → IsCreated env user c c' key mode
    → is_sandbox_token (ambient_list sql env.sha256 ambient) key ≡ false
    → authenticate_token sql env.sha256 ambient key c'.world ≡ some (key_for env user key mode)
unfolding authenticate_token
created-authenticate sql ambient env user c c' key mode h real =
    let issued = issue_api_key env.sha256 env.random_secret mode in
    let row = row_of env user h.name issued in
    let found : sql.select_one (usable (hash_api_key env.sha256 key)) (c.world.api_keys ++ row ∷ [])
        ≡ some row =
      select_one-last sql _ c.world.api_keys row (fresh-usable _ c.world.api_keys h.fresh)
        (usable-row_of env user h.name key mode h.key_is) in
    rw (truthy-key env key mode h.key_is, real, h.keys, found)
      (row-known env user h.name key mode h.key_is)

-- In the state that the console leaves when it hands out a key, that key authenticates the user who
-- asked for it, in the environment it was asked for, whichever rows the database prefers, unless it is
-- one of the sandbox's tokens.
pub authenticate_token-post_keys :
    (sql : Sql) (ambient : Option Text) (env : ConsoleEnv) (user : SessionUser) (body : Option Json)
    (c c' : Console) (key : Text) (view : KeyView) (mode : Mode)
    → post_keys env (some user) body c ≡ (some (created key view mode), c')
    → is_sandbox_token (ambient_list sql env.sha256 ambient) key ≡ false
    → authenticate_token sql env.sha256 ambient key c'.world ≡ some (key_for env user.id key mode)
authenticate_token-post_keys sql ambient env user body c c' key view mode h real =
    created-authenticate sql ambient env user.id c c' key mode
      (created_sound env user body c c' key view mode h) real

own_row :
    (env : ConsoleEnv) (user name : Text) (mode : Mode)
    → is_key_of env.serial user
        (row_of env user name (issue_api_key env.sha256 env.random_secret mode))
      ≡ true
own_row env user name mode = rw (===_refl user) (ground arith)

removed_keys :
    (later : ConsoleEnv) (user : Text) (id : Option ℕ) (n : ℕ) (c c' : Console)
    → id ≡ some n
    → delete_numbered later user (codes "Invalid key.") id c ≡ (some removed, c')
    → c'.world.api_keys ≡ delete_where (is_key_of n user) c.world.api_keys
removed_keys later user none n c c' e h = cc
removed_keys later user (some zero) n c c' e h =
    let r : some (refused 400 (codes "Invalid key.")) ≡ some removed = ap (λ p. p.0) h in cc
removed_keys later user (some (suc k)) n c c' e h = elim (Bool-cases later.db_fails) [
  | inl down ↦
      let h' : (none, c) ≡ (some removed, c') = rw down at h in
      let r : none ≡ some removed = ap (λ p. p.0) h' in cc
  | inr up ↦
      let h' : (
        some removed,
        forget user none (with_keys (delete_where (is_key_of (suc k) user) c.world.api_keys) c),
      )
          ≡ (some removed, c') =
        rw up at h in
      let same : suc k ≡ n = cc in rw (← same) (sym (ap (λ p. p.1.world.api_keys) h'))
]

-- Once its user has revoked it, the key authenticates nobody.
pub authenticate_token-revoke_api_key :
    (sql : Sql) (ambient : Option Text) (env later : ConsoleEnv) (user : SessionUser)
    (body : Option Json) (c c' c'' : Console) (key : Text) (view : KeyView) (mode : Mode)
    → post_keys env (some user) body c ≡ (some (created key view mode), c')
    → revoke_api_key later (some user) (some env.serial) c' ≡ (some removed, c'')
    → is_sandbox_token (ambient_list sql env.sha256 ambient) key ≡ false
    → authenticate_token sql env.sha256 ambient key c''.world ≡ none
unfolding authenticate_token revoke_api_key
authenticate_token-revoke_api_key sql ambient env later user body c c' c'' key view mode h r real =
    let made = created_sound env user body c c' key view mode h in
    let keys = removed_keys later user.id (some env.serial) env.serial c' c'' refl r in
    let row = row_of env user.id made.name (issue_api_key env.sha256 env.random_secret mode) in
    let own : is_key_of env.serial user.id row ≡ true = own_row env user.id made.name mode in
    let gone : sql.select_one (usable (hash_api_key env.sha256 key)) c''.world.api_keys ≡ none =
      rw (keys, made.keys)
        (select_one-none_of sql _ _ (
          delete_where-last _ (is_key_of env.serial user.id) c.world.api_keys row own
            (fresh-usable _ c.world.api_keys made.fresh))) in
    rw (truthy-key env key mode made.key_is, real, gone) refl
