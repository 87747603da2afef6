-- ===== src/Access/Keys.antt =====
-- Which keys authenticate a request (apps/web/lib/api-request-authenticator.ts), and that a key says
-- which environment it was issued for (apps/web/lib/api-key-service.ts).
use mathlib.Core.List.{◌∷◌, List, Memᴰ}
use openwrapper.Prelude.{
  sym, refl, ap, ◌≡◌, ◌⊎◌, inl, inr, true, Option, none, some, List, [], ◌∷◌, sym, arith, All,
  Option-cases, Bool-cases,
}
use openwrapper.Js.Text.{
  codes, member, trim, starts_with, is_space, to_lower, Text, truthy, ===_iff, ◌===◌, member,
}
use openwrapper.Js.Text.Laws.{IsVisible, trim-All}
use openwrapper.Js.Text.{trim, is_space}
use openwrapper.Store.{Sql, World, ApiKeyRow, Mode, live, test}
use openwrapper.Access.ApiKeys.{hash_api_key, get_api_key_environment, key_of, issue_api_key}
use openwrapper.Access.Authenticator.{
  key_of_row, ambient_list, AuthKey, authenticate_token, usable, is_sandbox_token, mode_of_row,
  sandbox_user,
}

-- The key that the row stands for.
abbrev pub IsKeyOf : AuthKey → ApiKeyRow → Type 0
IsKeyOf k row =
    (k.id ≡ row.id)
    × (k.user_id ≡ row.user_id)
    × (k.prefix ≡ row.prefix)
    × (k.environment ≡ mode_of_row row.environment row.prefix)

usable_sound :
    (hash : Text) (row : ApiKeyRow)
    → usable hash row ≡ true
    → (row.key_hash ≡ hash) × (row.revoked_at ≡ none)
usable_sound hash row h = elim (Option-cases row.revoked_at) [
  | inl e ↦ (((===_iff row.key_hash hash).0 (ground arith)), e)
  | inr (t, e) ↦ ground arith
]

same_key :
    (a k : AuthKey)
    → some a ≡ some k
    → (k.id ≡ a.id)
      × (k.user_id ≡ a.user_id)
      × (k.prefix ≡ a.prefix)
      × (k.environment ≡ a.environment)
same_key a k h =
    let e : k ≡ a = cc in
    (ap (λ x. x.id) e, ap (λ x. x.user_id) e, ap (λ x. x.prefix) e, ap (λ x. x.environment) e)

key_of_row_sound :
    (o : Option ApiKeyRow) (k : AuthKey)
    → key_of_row o ≡ some k
    → (row : ApiKeyRow) × (o ≡ some row) × IsKeyOf k row
key_of_row_sound none k h = cc
key_of_row_sound (some row) k h = (row, refl, same_key _ k h)

member_sound : (xs : List Text) (s : Text) → member xs s ≡ true → Memᴰ s xs
unfolding member
member_sound [] s h = cc
member_sound (x ∷ xs) s h = elim (Bool-cases (x === s)) [
  | inl same ↦ Memᴰ.head (sym ((===_iff x s).0 same))
  | inr other ↦ Memᴰ.tail (member_sound xs s (rw other at h))
]

-- The two tokens that are always the sandbox's, and those that the environment names.
abbrev pub IsSandboxToken : List Text → Text → Type 0
IsSandboxToken ambient token =
    (token ≡ codes "ow_demo_sandbox_key")
    ⊎ ((token ≡ codes "ow_test_sandbox_demo") ⊎ Memᴰ token ambient)

is_sandbox_token_sound :
    (ambient : List Text) (token : Text)
    → is_sandbox_token ambient token ≡ true
    → IsSandboxToken ambient token
is_sandbox_token_sound ambient token h = elim (Bool-cases (token === codes "ow_demo_sandbox_key")) [
  | inl demo ↦ inl ((===_iff token (codes "ow_demo_sandbox_key")).0 demo)
  | inr not_demo ↦ elim (Bool-cases (token === codes "ow_test_sandbox_demo")) [
    | inl test_demo ↦ inr (inl ((===_iff token (codes "ow_test_sandbox_demo")).0 test_demo))
    | inr not_test ↦ inr (inr (member_sound ambient token (rw (not_demo, not_test) at h)))
  ]
]

-- A token that is accepted is not empty, and is either one of the two fixed tokens of the sandbox or
-- one of those that the environment lists for it, with the sandbox user, key 0 and the environment
-- that its prefix says, or the token of a row of `api_keys` that carries its hash and is not revoked.
pub authenticate_token_sound :
    (sql : Sql) (sha256 : Text → Text) (ambient : Option Text) (token : Text) (w : World)
    (k : AuthKey)
    → authenticate_token sql sha256 ambient token w ≡ some k
    → (truthy token ≡ true)
      × ((IsSandboxToken (ambient_list sql sha256 ambient) token
            × (k.id ≡ 0)
            × (k.user_id ≡ sandbox_user)
            × (k.environment ≡ get_api_key_environment token))
          ⊎ ((row : ApiKeyRow) × Memᴰ row w.api_keys
              × (row.key_hash ≡ hash_api_key sha256 token)
              × (row.revoked_at ≡ none)
              × IsKeyOf k row))
unfolding authenticate_token
authenticate_token_sound sql sha256 ambient token w k h = elim (Bool-cases (truthy token)) [
  | inr blank ↦ ground arith
  | inl filled ↦ (
    filled,
    elim (Bool-cases (is_sandbox_token (ambient_list sql sha256 ambient) token)) [
      | inl sandbox ↦
          let (id, user, prefix, environment) = same_key _ k (rw (filled, sandbox) at h) in
          inl (is_sandbox_token_sound _ token sandbox, id, user, environment)
      | inr real ↦
          let (row, e, same) = key_of_row_sound _ k (rw (filled, real) at h) in
          let (m, t) = sql.select_one_sound _ w.api_keys row e in
          let (hash, active) = usable_sound _ row t in inr (row, m, hash, active, same)
    ],
  )
]

get_api_key_environment-trimmed :
    (m : Mode) (secret : Text)
    → trim (key_of m secret) ≡ key_of m secret
    → get_api_key_environment (key_of m secret) ≡ m
unfolding get_api_key_environment to_lower starts_with ◌===◌
get_api_key_environment-trimmed live secret e = rw e refl
get_api_key_environment-trimmed test secret e = rw e refl

key_of-IsVisible :
    (m : Mode) (secret : Text) → All IsVisible secret → All IsVisible (key_of m secret)
unfolding is_space
key_of-IsVisible live secret h = (refl, (refl, (refl, (refl, (refl, (refl, (refl, (refl, h))))))))
key_of-IsVisible test secret h = (refl, (refl, (refl, (refl, (refl, (refl, (refl, (refl, h))))))))

-- The environment that is read off an issued key is the one it was issued for, if the random secret
-- has no white space.
issue_api_key-environment :
    (sha256 : Text → Text) (secret : Text) (m : Mode)
    → All IsVisible secret
    → get_api_key_environment (issue_api_key sha256 secret m).key ≡ m
unfolding issue_api_key
issue_api_key-environment sha256 secret m h =
    get_api_key_environment-trimmed m secret
      (trim-All (key_of m secret) (key_of-IsVisible m secret h))
