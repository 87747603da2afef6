-- ===== src/Payments/List.antt =====
-- `GET` of apps/web/app/api/[version]/payments/route.ts: the payments of the caller, newest first. What
-- `Number` makes of the parameter `limit` is an argument, none where it is no natural number; of rows
-- with one time of creation the database may give any order, and here keeps that of the table.
pub mod Answers
pub mod Tests
use openwrapper.Prelude.{
  ℕ, Bool, true, false, ◌&&◌, Option, none, some, List, [], ◌∷◌, ◌++◌, leb, if◌then◌else◌, keep,
  take, map,
}
use openwrapper.Js.Text.{Text, codes, ◌===◌, present}
use openwrapper.Store.{World, PaymentRow, column_is, mode_text}
use openwrapper.Store.Newest.{select_newest}
use openwrapper.Store.Handler.{Handler, ◌>>=◌, ◌>>◌, pure, gets}
use openwrapper.Access.Version.{validate_api_version}
use openwrapper.Access.Authenticator.{AuthKey}
use openwrapper.Ledger.Response.{NextAction, next_action_of}
use openwrapper.Payments.Api.{
  Env, Request, headers_of, ApiResponse, PaymentDetails, listed, is_test_mode, mode_of, fail, log,
}
use openwrapper.Payments.Create.Admit.{checked_version, require_key, authenticate, endpoint_of}

abbrev pub is_listed : Text → Text → PaymentRow → Bool
is_listed user environment r = column_is r.user_id user && r.environment === environment

abbrev pub limit_within : Option ℕ → Option ℕ
limit_within none = none
limit_within (some n) = if leb 1 n && leb n 100 then some n else none

-- `z.coerce.number().int().min(1).max(100)` on `searchParams.get("limit") ?? 50`
abbrev pub parsed_limit : (Text → Option ℕ) → Option Text → Option ℕ
parsed_limit to_number none = some 50
parsed_limit to_number (some s) = limit_within (to_number s)

-- A listed payment has no instructions.
abbrev pub item_of : PaymentRow → PaymentDetails
item_of p = record {
  payment_id = p.id;
  provider = p.provider;
  provider_reference = p.provider_reference;
  status = p.status;
  amount_minor_units = p.amount_minor_units;
  currency = p.currency;
  merchant_reference = p.merchant_reference;
  description = p.description;
  customer_phone = p.customer_phone;
  customer_email = p.customer_email;
  customer_name = p.customer_name;
  next_action = next_action_of p.next_action_type p.next_action_payload [];
  created_at = p.created_at;
  updated_at = p.updated_at;
}

module _ (env : Env) (to_number : Text → Option ℕ) where
  abbrev pub require_limit : Option ℕ → Handler ApiResponse ℕ
  require_limit (some n) = pure n
  require_limit none =
      fail 400 (codes "invalid_request") (codes "limit must be an integer between 1 and 100.")

  abbrev pub rows_of : AuthKey → Bool → ℕ → World → List PaymentRow
  rows_of key is_test limit w =
      select_newest (λ (p : PaymentRow). p.created_at)
        (is_listed key.user_id (mode_text (mode_of is_test))) limit w.payments

  -- `GET`, with the parameter `limit` of the URL.
  unfoldable pub list_payments : Option Text → Request → Handler ApiResponse ApiResponse
  unfolding validate_api_version is_test_mode select_newest
  list_payments limit_param r = do
    version ← checked_version env (validate_api_version r.version)
    known ← gets (authenticate env r)
    key ← require_key env (codes "Missing or invalid API key.") known
    limit ← require_limit (parsed_limit to_number limit_param)
    let is_test = is_test_mode key (headers_of r)
    rows ← gets (rows_of key is_test limit)
    log env key (codes "GET") (endpoint_of version) 200 none (some (mode_of is_test))
    pure (record { status = 200; body = listed (map item_of rows) })
