-- ===== src/Sdk/Tests.antt =====
-- The TypeScript client on concrete inputs.
use openwrapper.Sdk.Sent.{over}
use openwrapper.Sdk.Accepted.{validate_provider_credentials-create_headers}
use openwrapper.Sdk.Providers.{ProviderCredentials, create_headers}
use openwrapper.Access.Credentials.{ok, validate_provider_credentials}
use openwrapper.Prelude.{
  none, ltb, ◌≤◌, ◌≡◌, ◌≢◌, inl, inr, refl, true, false, some, arith, length, suc,
}
use openwrapper.Js.Text.{is_space, trim_end, trim_start, trim, ◌===◌, Text, codes}
use openwrapper.Js.Json.{obj, end}
use openwrapper.Sdk.Request.{
  Net, responded, failed, Response, request, threw, give_up, exited_unexpectedly,
}
use openwrapper.Sdk.Request.Retries.{request-bounded, request_exhausted, backoff, RetriesOnly}
use openwrapper.Sdk.Signature.{sign_webhook_payload, verify_signature}
use openwrapper.Sdk.Signature.RoundTrip.{verify_signature-sign_webhook_payload}

-- A server that answers from its third call on.
abbrev empty_object : Response
empty_object = record { ok = true; status = 200; status_text = codes "OK"; body = some (obj end) }

abbrev flaky : Net
flaky = record {
  fetch = λ n. elim (ltb n 2) [
    | true ↦ failed (codes "ECONNRESET") false false
    | false ↦ responded empty_object
  ];
  aborted_before = λ _. false;
  aborted_asleep = λ _. false;
}

abbrev dead : Net
dead = record {
  fetch = λ _. failed (codes "ECONNREFUSED") false false;
  aborted_before = λ _. false;
  aborted_asleep = λ _. false;
}

request-bounded_example :
    let r = request flaky (codes "http://gw") 30_000 200 3 in
    (r.outcome ≢ exited_unexpectedly)
    × (r.fetches ≤ 4)
    × RetriesOnly flaky 0 r.fetches
    × (r.delays ≡ backoff 200 0 (length r.delays))
    × (length r.delays ≤ r.fetches)
    × (r.fetches ≤ suc (length r.delays))
request-bounded_example = request-bounded flaky (codes "http://gw") 30_000 200 3

request_exhausted_example : request dead (codes "http://gw") 30_000 200 1 ≡ record {
  outcome = threw (give_up dead (codes "http://gw") 30_000 200 2 2 (codes "ECONNREFUSED") false);
  fetches = 2;
  delays = backoff 200 0 1;
}
request_exhausted_example =
    request_exhausted dead (codes "http://gw") 30_000 200 1 (codes "ECONNREFUSED") false
      (λ n. (refl, refl)) (refl, tt) refl

-- A digest of two digits stands for HMAC.
abbrev constant_hmac : Text → Text → Text
constant_hmac key text = codes "a1"

verify_signature-sign_webhook_payload_example :
    verify_signature constant_hmac 1_100
      (codes "{}")
      (codes "whsec")
      300
      (sign_webhook_payload constant_hmac 1_000 (codes "{}") (codes "whsec")).header
    ≡ true
verify_signature-sign_webhook_payload_example =
    verify_signature-sign_webhook_payload constant_hmac 1_000 1_100 300 (codes "{}") (codes "whsec")
      (λ key text. (inr (omega arith), (inl (omega arith), tt))) (λ e. omega arith) (omega arith)
      (inl (omega arith))

abbrev test_credentials : ProviderCredentials
test_credentials = record {
  paymob = none;
  fawry = some (record {
    merchant_code = some (codes "m1");
    secure_key = some (codes "k1");
    base_url = none;
  });
  stripe = none;
}

validate_provider_credentials-create_headers_example :
    validate_provider_credentials
      (λ _. none)
      (codes "fawry")
      (over (create_headers (codes "order-17") test_credentials) (λ _. none))
      none
      false
    ≡ ok
unfolding ◌===◌ trim trim_start trim_end is_space
validate_provider_credentials-create_headers_example =
    validate_provider_credentials-create_headers (λ _. none) (codes "fawry") (codes "order-17")
      test_credentials (λ _. none) none false refl
