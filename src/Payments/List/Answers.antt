-- ===== src/Payments/List/Answers.antt =====
-- Whose payments the list of apps/web/app/api/[version]/payments/route.ts shows.
use mathlib.Core.List.{Memᴰ}
use openwrapper.Prelude.{
  ℕ, ◌≤◌, ◌≡◌, refl, ◌∙◌, true, Option, none, some, List, [], ◌∷◌, arith, length, map, All,
}
use openwrapper.Js.Text.{Text, codes, ===_iff}
use openwrapper.Store.{World, PaymentRow, mode_text}
use openwrapper.Store.Handler.{Handler, next, ◌>>=◌, ◌>>◌, pure, gets, final}
use openwrapper.Access.Version.{validate_api_version}
use openwrapper.Access.Authenticator.{AuthKey}
use openwrapper.Ledger.Idempotency.{column_is_sound}
use openwrapper.Payments.Api.{
  Env, Request, headers_of, ApiResponse, listed, is_test_mode, mode_of, log,
}
use openwrapper.Payments.Create.Admit.{checked_version, require_key, authenticate, endpoint_of}
use openwrapper.Payments.Retrieve.Reads.{checked_version-final, require_key-final}
use openwrapper.Payments.Retrieve.Owner.{bind-next_still, required_key}
use openwrapper.Payments.List.{
  limit_within, rows_of, require_limit, parsed_limit, is_listed, list_payments, is_listed,
  parsed_limit, item_of, require_limit, rows_of, list_payments,
}
use openwrapper.Store.Newest.Laws.{IsNewestFirst, select_newest_sound, select_newest-Memᴰ}

limit_within_sound : (o : Option ℕ) (n : ℕ) → limit_within o ≡ some n → (1 ≤ n) × (n ≤ 100)
limit_within_sound none n h = cc
limit_within_sound (some m) n h = ground arith

parsed_limit_sound :
    (to_number : Text → Option ℕ) (given : Option Text) (n : ℕ)
    → parsed_limit to_number given ≡ some n
    → (1 ≤ n) × (n ≤ 100)
parsed_limit_sound to_number none n h = let e : n ≡ 50 = cc in (omega arith, omega arith)
parsed_limit_sound to_number (some s) n h = limit_within_sound (to_number s) n h

-- A row of the user in the environment.
abbrev pub IsOf : Text → Text → PaymentRow → Type 0
IsOf user environment p = (p.user_id ≡ some user) × (p.environment ≡ environment)

listed_sound :
    (user environment : Text) (rows : List PaymentRow)
    → All (λ p. is_listed user environment p ≡ true) rows
    → All (IsOf user environment) rows
listed_sound user environment [] h = tt
listed_sound user environment (p ∷ rows) (t, h) = (
  (
    column_is_sound p.user_id user (ground arith),
    (===_iff p.environment environment).0 (ground arith),
  ),
  listed_sound user environment rows h,
)

module _ (env : Env) (to_number : Text → Option ℕ) (given : Option Text) (r : Request) where
  abbrev environment_of : AuthKey → Text
  environment_of key = mode_text (mode_of (is_test_mode key (headers_of r)))

  -- What an answer of the list shows.
  abbrev pub IsOwnList : World → ApiResponse → Type 0
  IsOwnList w response =
      (key : AuthKey) × (rows : List PaymentRow) × (authenticate env r w ≡ some key)
      × (response ≡ record { status = 200; body = listed (map item_of rows) })
      × All (λ p. Memᴰ p w.payments) rows
      × All (IsOf key.user_id (environment_of key)) rows
      × (length rows ≤ 100)
      × IsNewestFirst (λ (p : PaymentRow). p.created_at) rows

  abbrev serve_limit : Text → AuthKey → ℕ → Handler ApiResponse ApiResponse
  serve_limit version key limit = do
    let is_test = is_test_mode key (headers_of r)
    rows ← gets (rows_of env to_number key is_test limit)
    log env key (codes "GET") (endpoint_of version) 200 none (some (mode_of is_test))
    pure (record { status = 200; body = listed (map item_of rows) })

  abbrev serve_key : Text → AuthKey → Handler ApiResponse ApiResponse
  serve_key version key =
      require_limit env to_number (parsed_limit to_number given) >>= serve_limit version key

  abbrev serve_known : Text → Option AuthKey → Handler ApiResponse ApiResponse
  serve_known version known =
      require_key env (codes "Missing or invalid API key.") known >>= serve_key version

  require_limit-final : (o : Option ℕ) (w : World) → final (require_limit env to_number o w) ≡ w
  require_limit-final none w = refl
  require_limit-final (some n) w = refl

  required_limit :
      (o : Option ℕ) (n : ℕ) (w w' : World)
      → require_limit env to_number o w ≡ next n w'
      → o ≡ some n
  required_limit none n w w' h = cc
  required_limit (some m) n w w' h = cc

  -- The list is answered only to an authenticated key, and shows at most 100 payments, all of them
  -- stored, of the key's user and in the environment of the request, the newest first.
  pub list_payments-IsOwnList :
      (w w' : World) (response : ApiResponse)
      → list_payments env to_number given r w ≡ next response w'
      → IsOwnList w response
  unfolding list_payments
  list_payments-IsOwnList w w' response h =
      let (version, e1, h1) =
        bind-next_still (checked_version env (validate_api_version r.version))
          (λ version. gets (authenticate env r) >>= serve_known version) w w' response
          (checked_version-final env (λ _ _. none) _ w) h in
      let (known, e2, h2) =
        bind-next_still (gets (authenticate env r)) (serve_known version) w w' response refl h1 in
      let (key, e3, h3) =
        bind-next_still (require_key env (codes "Missing or invalid API key.") known)
          (serve_key version) w w' response (require_key-final env (λ _ _. none) _ known w) h2 in
      let (limit, e4, h4) =
        bind-next_still (require_limit env to_number (parsed_limit to_number given))
          (serve_limit version key) w w' response (require_limit-final _ w) h3 in
      let rows = rows_of env to_number key (is_test_mode key (headers_of r)) limit w in
      let (short, pass, sorted) =
        select_newest_sound (λ (p : PaymentRow). p.created_at)
          (is_listed key.user_id (environment_of key)) limit w.payments in
      let (low, high) = parsed_limit_sound to_number given limit (required_limit _ limit w w e4) in
      let same : authenticate env r w ≡ known = cc in
      (
        key,
        rows,
        same ∙ required_key env (λ _ _. none) (codes "") r _ known key w w e3,
        (cc),
        select_newest-Memᴰ (λ (p : PaymentRow). p.created_at)
            (is_listed key.user_id (environment_of key)) limit w.payments,
        listed_sound key.user_id (environment_of key) rows pass,
        omega arith,
        sorted,
      )
