-- ===== src/Sdk/Client.antt =====
-- `OpenWrapperClient` of sdk/typescript/src/client.ts: its constructor, and what each method hands to the
-- request loop. `fetch` is an argument: the network that answers a call. The delay between attempts is in
-- whole milliseconds; another number is negative or not finite.
pub mod Params
pub mod Resources
pub mod Fields
pub mod Parsed
pub mod Sent
pub mod Returned
pub mod Admitted
pub mod Tests
use openwrapper.Prelude.{ℕ, Option, none, some, List, [], ◌∷◌, ◌++◌}
use openwrapper.Js.Text.{Text, codes, or_text, or_default}
use openwrapper.Js.Json.{Json}
use openwrapper.Gateway.Bridge.{Url}
use openwrapper.Sdk.Errors.{SdkError}
use openwrapper.Sdk.Checks.{
  Refusal, type_error, range_error, Number, natural, other, validate_positive_integer,
  normalize_base_url, url_for,
}
use openwrapper.Sdk.Providers.{ProviderCredentials}
use openwrapper.Sdk.Request

-- `OpenWrapperClientOptions`; none is undefined.
pub record ClientOptions : Type 0 where
  pub base_url : Option Text
  pub api_key : Option Text
  pub providers : Option ProviderCredentials
  pub max_retries : Option Number
  pub retry_delay_ms : Option Number
  pub timeout_ms : Option Number

pub record Client : Type 0 where
  pub base_url : Text
  pub api_key : Option Text
  pub providers : Option ProviderCredentials
  pub max_retries : ℕ
  pub retry_delay_ms : ℕ
  pub timeout_ms : Number

pub data Made : Type 0 where
  made : Client → Made
  refused : Refusal → Made

-- The API key of the options, or else that of the environment.
abbrev given_or : Option Text → Option Text → Option Text
given_or none b = b
given_or (some a) b = some a

abbrev finish : Client → Option Refusal → Made
finish c none = made c
finish c (some e) = refused e

abbrev checked : Option Text → Number → Number → (Text → ℕ → ℕ → Made) → Made
checked none retries delay k = refused type_error
checked (some url) other delay k = refused range_error
checked (some url) (natural retries) other k = refused range_error
checked (some url) (natural retries) (natural delay) k = k url retries delay

module _ (vars : Text → Option Text) (parse_url : Text → Option Url) where
  abbrev default_base_url : Text
  default_base_url = or_text (vars (codes "OPENWRAPPER_BASE_URL")) (codes "http://127.0.0.1:8080")

  -- The constructor.
  unfoldable pub new_client : ClientOptions → Made
  unfolding normalize_base_url validate_positive_integer
  new_client options =
      checked (normalize_base_url (parse_url (or_default options.base_url default_base_url)))
        (or_default options.max_retries (natural 0))
        (or_default options.retry_delay_ms (natural 200))
        (λ url retries delay.
          finish
            (record {
              base_url = url;
              api_key = given_or options.api_key (vars (codes "OPENWRAPPER_API_KEY"));
              providers = options.providers;
              max_retries = retries;
              retry_delay_ms = delay;
              timeout_ms = or_default options.timeout_ms (natural 30_000);
            })
            (validate_positive_integer (or_default options.timeout_ms (natural 30_000))))

-- What `fetch` is called with; the body is none where there is none.
pub record Call : Type 0 where
  pub method : Text
  pub url : Text
  pub headers : List (Text × Text)
  pub body : Option Json

-- What answers a call, attempt by attempt.
abbrev pub Transport : Type 0
Transport = Call → Request.Net

-- What a method gives: a value, one of the SDK's errors, an exception of JavaScript, the reason of the
-- abort signal, or the error behind the loop.
pub data Reply (A : Type 0) : Type 0 where
  returned : A → Reply A
  threw : SdkError → Reply A
  raised : Refusal → Reply A
  aborted : Reply A
  exited_unexpectedly : Reply A

-- A reply with the call that was made, if any, and how often `fetch` was called with it.
pub record Exchange (A : Type 0) : Type 0 where
  pub reply : Reply A
  pub call : Option Call
  pub fetches : ℕ

abbrev pub nothing_sent : {A : Type 0} → Refusal → Exchange A
nothing_sent e = record { reply = raised e; call = none; fetches = 0 }

-- What the method makes of the body; none is the TypeError of reading a property of undefined.
abbrev value_or_raise : {A : Type 0} → Option A → Reply A
value_or_raise none = raised type_error
value_or_raise (some a) = returned a

abbrev reply_of : {A : Type 0} → (Option Json → Option A) → Request.Outcome → Reply A
reply_of read (Request.returned body) = value_or_raise (read body)
reply_of read (Request.threw e) = threw e
reply_of read Request.aborted = aborted
reply_of read Request.exited_unexpectedly = exited_unexpectedly

-- `if (this.apiKey)`
abbrev pub auth_headers : Option Text → List (Text × Text)
auth_headers none = []
auth_headers (some []) = []
auth_headers (some (c ∷ key)) =
    (codes "Authorization", codes "Bearer " ++ c ∷ key) ∷ (codes "X-API-Key", c ∷ key) ∷ []

abbrev pub timed : {A : Type 0} → Number → (ℕ → Exchange A) → Exchange A
timed other k = nothing_sent range_error
timed (natural n) k = elim (validate_positive_integer (natural n)) [
  | some e ↦ nothing_sent e
  | none ↦ k n
]

-- The call that the request loop makes; the headers of a method are none of those added here.
abbrev pub call_of : Client → Text → Text → List (Text × Text) → Option Json → Call
call_of client method path headers body = record {
  method = method;
  url = url_for client.base_url path;
  headers =
      (codes "Content-Type", codes "application/json") ∷ (headers ++ auth_headers client.api_key);
  body = body;
}

abbrev pub exchange_of : {A : Type 0} → (Option Json → Option A) → Call → Request.Run → Exchange A
exchange_of read call run = record {
  reply = reply_of read run.outcome;
  call = some call;
  fetches = run.fetches;
}

abbrev pub run_of : Transport → Client → Call → ℕ → Request.Run
run_of transport client call n =
    Request.request (transport call) call.url n client.retry_delay_ms client.max_retries

-- `request`, with its check of the timeout, and the method's reading of the body.
unfoldable pub send :
    {A : Type 0}
    → Transport
    → Client
    → Text
    → Text
    → List (Text × Text)
    → Option Json
    → Option Number
    → (Option Json → Option A)
    → Exchange A
unfolding Request.request validate_positive_integer url_for
send transport client method path headers body timeout_ms read =
    let call = call_of client method path headers body in
    timed (or_default timeout_ms client.timeout_ms)
      (λ n. exchange_of read call (run_of transport client call n))
