-- ===== src/Sdk/Request/Retries.antt =====
-- How often `request` of sdk/typescript/src/client.ts calls `fetch`, when it tries again, and what it
-- gives in the end.
use openwrapper.Prelude.{
  ◌∙◌, ◌-◌, ℕ, zero, suc, ◌+◌, ◌*◌, ◌^◌, ◌≤◌, ◌<◌, ◌≡◌, ◌≢◌, refl, Bool, true, false, List, [], ◌∷◌,
  arith, length, leb, subst, ap, Bool-cases, inl, inr,
}
use openwrapper.Js.Text.{Text}
use openwrapper.Sdk.Request.{
  slept, answered, Answer, responded, failed, Net, Outcome, exited_unexpectedly, threw, Run,
  Response, read_response, stopped, attempts, request, give_up,
}

-- A call that was refused by the network, with the caller still waiting.
abbrev pub IsTransportError : Answer → Type 0
IsTransportError (responded r) = ⊥
IsTransportError (failed message timed_out by_caller) = by_caller ≡ false

-- The delays of exponential backoff from an attempt on.
abbrev pub backoff : ℕ → ℕ → ℕ → List ℕ
backoff base attempt zero = []
backoff base attempt (suc n) = base * 2 ^ attempt ∷ backoff base (suc attempt) n

abbrev pub after_delays : List ℕ → Run → Run
after_delays [] r = r
after_delays (d ∷ ds) r = slept d (after_delays ds r)

module _ (net : Net) where
  -- The attempts before the last call of `fetch` all ended in a transport error.
  abbrev pub RetriesOnly : ℕ → ℕ → Type 0
  RetriesOnly attempt zero = Unit
  RetriesOnly attempt (suc zero) = Unit
  RetriesOnly attempt (suc (suc n)) =
      IsTransportError (net.fetch attempt) × RetriesOnly (suc attempt) (suc n)

  -- Nobody aborts the request.
  abbrev pub IsPatient : Type 0
  IsPatient = (n : ℕ) → (net.aborted_before n ≡ false) × (net.aborted_asleep n ≡ false)

  abbrev pub AllFail : ℕ → ℕ → Type 0
  AllFail attempt zero = Unit
  AllFail attempt (suc n) = IsTransportError (net.fetch attempt) × AllFail (suc attempt) n

module _ (net : Net) (url : Text) (timeout_ms base max : ℕ) where
  -- What holds of a run that starts at `attempt`.
  abbrev IsOrderly : ℕ → Run → Type 0
  IsOrderly attempt r =
      (r.outcome ≢ exited_unexpectedly)
      × (r.fetches + attempt ≤ max)
      × RetriesOnly net attempt r.fetches
      × (r.delays ≡ backoff base attempt (length r.delays))
      × (length r.delays ≤ r.fetches)
      × (r.fetches ≤ suc (length r.delays))

  RetriesOnly-suc :
      (attempt n : ℕ)
      → IsTransportError (net.fetch attempt)
      → RetriesOnly net (suc attempt) n
      → RetriesOnly net attempt (suc n)
  RetriesOnly-suc attempt zero t h = tt
  RetriesOnly-suc attempt (suc n) t h = (t, h)

  read_response-settled : (r : Response) → read_response r ≢ exited_unexpectedly
  unfolding read_response
  read_response-settled r h = ground arith

  answered-IsOrderly :
      (attempt : ℕ) (again : Run) (a : Answer)
      → a ≡ net.fetch attempt
      → suc attempt ≤ max
      → (suc (suc attempt) ≤ max → IsOrderly (suc attempt) again)
      → IsOrderly attempt (answered net url timeout_ms base max attempt again a)
  answered-IsOrderly attempt again (responded r) e h ih =
      (read_response-settled r, omega arith, tt, refl, omega arith, omega arith)
  answered-IsOrderly attempt again (failed message timed_out true) e h ih =
      (λ h. cc, omega arith, tt, refl, omega arith, omega arith)
  answered-IsOrderly attempt again (failed message timed_out false) e h ih =
      elim (Bool-cases (leb max (suc attempt))) [
        | inl last ↦ rw last (λ h. cc, omega arith, tt, refl, omega arith, omega arith)
        | inr more ↦ rw more (elim (Bool-cases (net.aborted_asleep attempt)) [
          | inl woken ↦ rw woken (λ h. cc, omega arith, tt, refl, omega arith, omega arith)
          | inr rested ↦
              let (settled, bound, only, delays, low, high) = ih (ground arith) in
              rw rested (
                settled,
                omega arith,
                RetriesOnly-suc attempt again.fetches (subst IsTransportError e refl) only,
                ap (λ ds. base * 2 ^ attempt ∷ ds) delays,
                omega arith,
                omega arith,
              )
        ])
      ]

  answered_failed :
      (attempt : ℕ) (again : Run) (a : Answer)
      → IsTransportError a
      → leb max (suc attempt) ≡ false
      → net.aborted_asleep attempt ≡ false
      → answered net url timeout_ms base max attempt again a ≡ slept (base * 2 ^ attempt) again
  answered_failed attempt again (responded r) t more rested = absurd t
  answered_failed attempt again (failed message timed_out by_caller) t more rested =
      rw (t, more, rested)

  attempts-IsOrderly :
      (fuel attempt : ℕ)
      → attempt < max
      → max ≤ fuel + attempt
      → IsOrderly attempt (attempts net url timeout_ms base max fuel attempt)
  unfolding attempts
  attempts-IsOrderly zero attempt h enough = absurd (omega arith)
  attempts-IsOrderly (suc fuel) attempt h enough = elim (Bool-cases (net.aborted_before attempt)) [
    | inl early ↦ rw early (λ h. cc, omega arith, tt, refl, omega arith, omega arith)
    | inr waiting ↦ rw waiting (
        answered-IsOrderly attempt (attempts net url timeout_ms base max fuel (suc attempt))
          (net.fetch attempt) refl (omega arith)
          λ more. attempts-IsOrderly fuel (suc attempt) (omega arith) (omega arith))
  ]

  -- Attempts that the network refuses, one after another, are followed by the next ones.
  attempts-AllFail :
      (k fuel attempt rest last : ℕ)
      → IsPatient net
      → AllFail net attempt k
      → fuel ≡ k + rest
      → last ≡ k + attempt
      → last < max
      → attempts net url timeout_ms base max fuel attempt
        ≡ after_delays (backoff base attempt k) (attempts net url timeout_ms base max rest last)
  unfolding attempts
  attempts-AllFail zero fuel attempt rest last patient h f l room =
      let same : fuel ≡ rest = omega arith in
      let here : last ≡ attempt = omega arith in rw (same, here) refl
  attempts-AllFail (suc k) zero attempt rest last patient h f l room = absurd (omega arith)
  attempts-AllFail (suc k) (suc fuel) attempt rest last patient (t, h) f l room =
      let again =
        attempts-AllFail k fuel (suc attempt) rest last patient h (omega arith) (omega arith)
          room in
      let (awake, rested) = patient attempt in
      rw (awake) (
        answered_failed attempt (attempts net url timeout_ms base max fuel (suc attempt))
          (net.fetch attempt) t (ground arith) rested
        ∙ ap (slept (base * 2 ^ attempt)) again)

  -- An attempt that is answered is the last.
  attempts-responded :
      (fuel attempt : ℕ) (r : Response)
      → net.aborted_before attempt ≡ false
      → net.fetch attempt ≡ responded r
      → attempts net url timeout_ms base max (suc fuel) attempt ≡ stopped (read_response r) 1
  unfolding attempts
  attempts-responded fuel attempt r awake e = rw (awake, e) refl

  -- The last attempt that is allowed, refused as those before it.
  attempts-last :
      (fuel attempt : ℕ) (message : Text) (timed_out : Bool)
      → net.aborted_before attempt ≡ false
      → net.fetch attempt ≡ failed message timed_out false
      → max ≡ suc attempt
      → attempts net url timeout_ms base max (suc fuel) attempt
        ≡ stopped (threw (give_up net url timeout_ms base max (suc attempt) message timed_out)) 1
  unfolding attempts
  attempts-last fuel attempt message timed_out awake e m =
      let last : leb max (suc attempt) ≡ true = ground arith in rw (awake, e, last) refl

-- The request ends by itself, within `maxRetries + 1` calls of `fetch` and never by the error behind
-- the loop; every call but the last was refused by the network with the caller still waiting, so a
-- response of any status is never followed by another call; and the delays slept are `retryDelayMs`
-- times the powers of two from 2 ^ 0, one between each two calls.
pub request-bounded :
    (net : Net) (url : Text) (timeout_ms base max_retries : ℕ)
    → let r = request net url timeout_ms base max_retries in
      (r.outcome ≢ exited_unexpectedly)
      × (r.fetches ≤ suc max_retries)
      × RetriesOnly net 0 r.fetches
      × (r.delays ≡ backoff base 0 (length r.delays))
      × (length r.delays ≤ r.fetches)
      × (r.fetches ≤ suc (length r.delays))
unfolding request
request-bounded net url timeout_ms base max_retries =
    let (settled, bound, only, delays, low, high) =
      attempts-IsOrderly net url timeout_ms base (suc max_retries) (suc max_retries) 0 (omega arith)
        (omega arith) in
    (settled, omega arith, only, delays, low, high)

after_delays_eq :
    (ds : List ℕ) (o : Outcome)
    → after_delays ds (stopped o 1) ≡ record { outcome = o; fetches = suc (length ds); delays = ds }
after_delays_eq [] o = refl
after_delays_eq (d ∷ ds) o = ap (slept d) (after_delays_eq ds o)

length-backoff : (base attempt n : ℕ) → length (backoff base attempt n) ≡ n
length-backoff base attempt zero = refl
length-backoff base attempt (suc n) = ap suc (length-backoff base (suc attempt) n)

-- If nobody aborts, the first `k` calls of `fetch` are refused by the network and call `k` is
-- answered, with `k ≤ maxRetries`, then the caller gets what is made of that response, after exactly
-- `k + 1` calls and `k` delays.
pub request_recovers :
    (net : Net) (url : Text) (timeout_ms base max_retries k : ℕ) (response : Response)
    → IsPatient net
    → k ≤ max_retries
    → AllFail net 0 k
    → net.fetch k ≡ responded response
    → request net url timeout_ms base max_retries
      ≡ record { outcome = read_response response; fetches = suc k; delays = backoff base 0 k }
unfolding request
request_recovers net url timeout_ms base max_retries k response patient room h e =
    attempts-AllFail net url timeout_ms base (suc max_retries) k (suc max_retries) 0
      (suc (max_retries - k)) k patient h (omega arith) (omega arith) (omega arith)
    ∙ ap (after_delays (backoff base 0 k)) (
        attempts-responded net url timeout_ms base (suc max_retries) (max_retries - k) k response
          (patient k).0 e)
    ∙ after_delays_eq (backoff base 0 k) (read_response response)
    ∙ rw (length-backoff base 0 k) refl

-- If nobody aborts and the network refuses every call that is allowed, the caller gets the timeout
-- error if the last call timed out and the unreachable error if not, after exactly `maxRetries + 1`
-- calls.
pub request_exhausted :
    (net : Net) (url : Text) (timeout_ms base max_retries : ℕ) (message : Text) (timed_out : Bool)
    → IsPatient net
    → AllFail net 0 max_retries
    → net.fetch max_retries ≡ failed message timed_out false
    → request net url timeout_ms base max_retries ≡ record {
      outcome =
          threw
            (give_up net url timeout_ms base (suc max_retries) (suc max_retries) message timed_out);
      fetches = suc max_retries;
      delays = backoff base 0 max_retries;
    }
unfolding request
request_exhausted net url timeout_ms base max_retries message timed_out patient h e =
    attempts-AllFail net url timeout_ms base (suc max_retries) max_retries (suc max_retries) 0 1
      max_retries patient h (omega arith) (omega arith) (omega arith)
    ∙ ap (after_delays (backoff base 0 max_retries)) (
        attempts-last net url timeout_ms base (suc max_retries) 0 max_retries message timed_out
          (patient max_retries).0 e refl)
    ∙ after_delays_eq (backoff base 0 max_retries) _
    ∙ rw (length-backoff base 0 max_retries) refl
