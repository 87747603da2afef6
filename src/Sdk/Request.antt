-- ===== src/Sdk/Request.antt =====
-- The private method `request` of `OpenWrapperClient` (sdk/typescript/src/client.ts): the attempts,
-- the waits between them, and what the caller gets. The network and the caller's abort signal are
-- arguments; headers and the body of the request do not enter the loop.
pub mod Retries
use openwrapper.Prelude.{
  ℕ, zero, suc, ◌*◌, ◌^◌, Bool, true, false, Option, none, some, List, [], ◌∷◌, ◌++◌, leb, ◌==◌,
  if◌then◌else◌,
}
use openwrapper.Js.Text.{Text, codes}
use openwrapper.Js.Decimal.{show}
use openwrapper.Js.Json.{Json, null, obj, str, get}
use openwrapper.Sdk.Errors.{
  SdkError, ErrorClass, gateway_timeout_error, gateway_unreachable_error, error_from_body,
}

-- `body` is none where `response.json()` rejects.
pub record Response : Type 0 where
  pub ok : Bool
  pub status : ℕ
  pub status_text : Text
  pub body : Option Json

-- What one call of `fetch` gives; `aborted` is `signal.aborted` when it has rejected.
pub data Answer : Type 0 where
  responded : Response → Answer
  failed : (message : Text) → (timed_out aborted : Bool) → Answer

-- The network and the abort signal, by the number of the attempt.
pub record Net : Type 0 where
  pub fetch : ℕ → Answer
  pub aborted_before : ℕ → Bool
  pub aborted_asleep : ℕ → Bool

-- What the caller gets: a body (none for 204), one of the SDK's errors, the reason of the abort
-- signal, or the error behind the loop.
pub data Outcome : Type 0 where
  returned : Option Json → Outcome
  threw : SdkError → Outcome
  aborted : Outcome
  exited_unexpectedly : Outcome

-- An outcome with the number of calls of `fetch` and the delays slept.
pub record Run : Type 0 where
  pub outcome : Outcome
  pub fetches : ℕ
  pub delays : List ℕ

abbrev unreachable : Text → SdkError
unreachable message = record {
  class = gateway_unreachable_error;
  message = message;
  http_status = 0;
}

-- `isErrorBody`, with the code and the message that it finds.
abbrev code_and_message : Option Json → Option Json → Option (Text × Text)
code_and_message (some (str code)) (some (str message)) = some (code, message)
code_and_message _ _ = none

abbrev error_field : Option Json → Option (Text × Text)
error_field (some (obj fs)) =
    code_and_message (get (obj fs) (codes "code")) (get (obj fs) (codes "message"))
error_field _ = none

unfoldable pub error_body : Option Json → Option (Text × Text)
unfolding get
error_body (some (obj fs)) = error_field (get (obj fs) (codes "error"))
error_body _ = none

-- `await response.json().catch(() => null)` of a success.
abbrev success_body : Option Json → Outcome
success_body (some null) =
    threw (unreachable (codes "OpenWrapper gateway returned a non-JSON success response"))
success_body none =
    threw (unreachable (codes "OpenWrapper gateway returned a non-JSON success response"))
success_body (some v) = returned (some v)

abbrev failure_body : Response → Option (Text × Text) → Outcome
failure_body r none =
    threw
      (unreachable (codes "HTTP " ++ (show r.status ++ (codes " from gateway: " ++ r.status_text))))
failure_body r (some (code, message)) = threw (error_from_body code message r.status)

-- What is made of a response; none of it is tried again.
unfoldable pub read_response : Response → Outcome
unfolding error_body
read_response r =
    if r.ok
    then if r.status == 204 then returned none else success_body r.body
    else failure_body r (error_body r.body)

abbrev pub stopped : Outcome → ℕ → Run
stopped o n = record { outcome = o; fetches = n; delays = [] }

abbrev slept : ℕ → Run → Run
slept delay r = record { outcome = r.outcome; fetches = suc r.fetches; delays = delay ∷ r.delays }

module _ (net : Net) (url : Text) (timeout_ms base_delay max_attempts : ℕ) where
  abbrev pub give_up : ℕ → Text → Bool → SdkError
  give_up attempt message true = record {
    class = gateway_timeout_error;
    message =
        codes "OpenWrapper gateway request timed out after " ++ (show timeout_ms ++ codes "ms");
    http_status = 0;
  }
  give_up attempt message false = unreachable (
      codes "Failed to reach OpenWrapper gateway at "
      ++ (url ++ (codes " after " ++ (show attempt ++ (codes " attempt(s): " ++ message)))))

  -- One pass of the loop with `attempt`; `again` is the rest of the loop with `attempt + 1`.
  abbrev pub answered : ℕ → Run → Answer → Run
  answered attempt again (responded r) = stopped (read_response r) 1
  answered attempt again (failed message timed_out true) = stopped aborted 1
  answered attempt again (failed message timed_out false) =
      if leb max_attempts (suc attempt)
      then stopped (threw (give_up (suc attempt) message timed_out)) 1
      else if net.aborted_asleep attempt
      then record { outcome = aborted; fetches = 1; delays = base_delay * 2 ^ attempt ∷ [] }
      else slept (base_delay * 2 ^ attempt) again

  -- `while (attempt < maxAttempts)` on fuel; with none left the loop has ended.
  unfoldable pub attempts : ℕ → ℕ → Run
  unfolding read_response
  attempts zero attempt = stopped exited_unexpectedly 0
  attempts (suc fuel) attempt =
      let again = attempts fuel (suc attempt) in
      if net.aborted_before attempt
      then stopped aborted 0
      else answered attempt again (net.fetch attempt)

-- `request`, behind the check of `timeoutMs`.
unfoldable pub request : Net → Text → ℕ → ℕ → ℕ → Run
unfolding attempts
request net url timeout_ms base_delay max_retries =
    attempts net url timeout_ms base_delay (suc max_retries) (suc max_retries) 0
