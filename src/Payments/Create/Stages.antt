-- ===== src/Payments/Create/Stages.antt =====
-- The stages of `POST` on their own: storing a new payment, finding it again, and the stages in
-- their order (apps/web/app/api/[version]/payments/route.ts).
use openwrapper.Ledger.Idempotency.{absent, found}
use openwrapper.Payments.Create.Admit.{admit}
use openwrapper.Payments.Create.Route.{route}
use openwrapper.Prelude.{◌≡◌, refl, ◌∙◌, ap, ap₂, false, Option, none, some, List, [], ◌∷◌, ◌++◌, ℕ}
use openwrapper.Js.Text.{===_refl, codes, Text, or_text, ◌or◌}
use openwrapper.Store.{World, PaymentRow, RequestRecord}
use openwrapper.Store.Handler.{Handler, ◌>>◌, ◌>>=◌, Step, reply, next}
use openwrapper.Ledger.Persist.{PersistPaymentInput, new_row, set_row, persist_payment_record}
use openwrapper.Ledger.Replay.{IsFresh, persist_payment_record-fresh, persist_payment_record-last}
use openwrapper.Ledger.Response.{payment_to_api_response}
use openwrapper.Payments.Api.{Request, Env, ApiResponse, payment}
use openwrapper.Payments.Create.Admit.{mode, endpoint_of, Admitted}
use openwrapper.Payments.Create.Replay.{
  replayed, settle, lookup_in, check_idempotency, stored, replay_input, persist,
}
use openwrapper.Payments.Create.Gateway.{Routed}
use openwrapper.Payments.Create.Post.{
  caught, check_credentials, process, post, created, store_payment, create_input,
}

-- The state after a new payment is stored, and its telemetry.
abbrev pub created_world : Env → Admitted → Routed → RequestRecord → World → World
created_world env a d record_of_it w = record w {
  payments = w.payments ++ new_row (create_input env a d) env.now ∷ [];
  scheduled = w.scheduled ++ record_of_it ∷ [];
}

abbrev pub response : (status : ℕ) → Admitted → PaymentRow → ApiResponse
response status a row = record {
  status = status;
  body = payment (payment_to_api_response row (some a.input.provider));
}

pub persist-fresh :
    (env : Env) (input : PersistPaymentInput) (w : World)
    → env.persist_fails ≡ false
    → IsFresh input.id w.payments
    → persist env input w
      ≡ next
          (new_row input env.now)
          (record w { payments = w.payments ++ new_row input env.now ∷ [] })
unfolding persist
persist-fresh env input w up fresh = ap (stored w) (
    ap (λ b. persist_payment_record b env.now input w.payments) up
    ∙ persist_payment_record-fresh env.now input w.payments fresh)

pub persist-last :
    (env : Env) (input : PersistPaymentInput) (w : World) (rows : List PaymentRow)
    (row : PaymentRow)
    → env.persist_fails ≡ false
    → w.payments ≡ rows ++ row ∷ []
    → row.id ≡ input.id
    → IsFresh input.id rows
    → persist env input w
      ≡ next
          (set_row input env.now row)
          (record w { payments = rows ++ set_row input env.now row ∷ [] })
unfolding persist
persist-last env input w rows row up e same fresh = ap (stored w) (
    ap₂ (λ b ps. persist_payment_record b env.now input ps) up e
    ∙ persist_payment_record-last env.now input rows row same fresh)

-- `a.customer_email || a.customer_email`, and the others that a replay reads twice.
pub or-same : (o : Option Text) → (o or o) ≡ o
or-same none = refl
or-same (some []) = refl
or-same (some (c ∷ s)) = refl

pub or_text-same : (s : Text) → or_text (some s) s ≡ s
or_text-same [] = refl
or_text-same (c ∷ s) = refl

-- A replay shows the payment as it was shown when it was made.
pub payment_to_api_response-replay :
    (env later : Env) (a : Admitted) (d : Routed) (shown_for : Option Text)
    → let row = new_row (create_input env a d) env.now in
      payment_to_api_response (set_row (replay_input later a row) later.now row) shown_for
      ≡ payment_to_api_response row shown_for
unfolding payment_to_api_response
payment_to_api_response-replay env later a d shown_for = rw (or_text-same a.description) refl

module _ (env : Env) (a : Admitted) where
  pub check_idempotency-absent :
      (w : World) → lookup_in env a w ≡ absent → check_idempotency env a w ≡ next tt w
  unfolding check_idempotency
  check_idempotency-absent w e = ap (λ l. settle env a l w) e

  abbrev pub log_of : ℕ → Option ℕ → RequestRecord
  log_of status routing = record {
    user_id = a.key.user_id;
    api_key_id = some a.key.id;
    method = codes "POST";
    endpoint = endpoint_of a.version;
    status_code = status;
    started_at = env.started_at;
    routing_latency_ms = routing;
    environment = some (mode a);
  }

  pub store_payment-fresh :
      (d : Routed) (w : World)
      → env.persist_fails ≡ false
      → IsFresh d.payment_id w.payments
      → store_payment env a d w
        ≡ next
            (response 201 a (new_row (create_input env a d) env.now))
            (created_world env a d (log_of 201 d.routing_latency_ms) w)
  unfolding store_payment
  store_payment-fresh d w up fresh =
      ap (λ (s : Step ApiResponse PaymentRow). (◌>>=◌ (λ (_ : World). s) (created env a d)) w)
        (persist-fresh env (create_input env a d) w up fresh)

  pub check_idempotency-found :
      (w : World) (rows : List PaymentRow) (row : PaymentRow)
      → env.persist_fails ≡ false
      → lookup_in env a w ≡ found row
      → row.request_fingerprint ≡ a.fingerprint
      → w.payments ≡ rows ++ row ∷ []
      → IsFresh row.id rows
      → let attached = set_row (replay_input env a row) env.now row in
        check_idempotency env a w
        ≡ reply (response 200 a attached) (record w {
          payments = rows ++ attached ∷ [];
          scheduled = w.scheduled ++ log_of 200 none ∷ [];
        })
  unfolding check_idempotency
  check_idempotency-found w rows row up e same split fresh =
      ap (λ l. settle env a l w) e
      ∙ rw (same, ===_refl a.fingerprint)
          (ap (λ (s : Step ApiResponse PaymentRow). (◌>>=◌ (λ (_ : World). s) (replayed env a)) w)
            (persist-last env (replay_input env a row) w rows row up split refl fresh))

module _ (env : Env) (r : Request) (a : Admitted) where
  pub post-admitted :
      (w : World) → admit env r w ≡ next a w → post env r w ≡ caught env (process env r a w)
  unfolding post
  post-admitted w e =
      ap
        (λ (s : Step ApiResponse Admitted).
          caught env ((◌>>=◌ (λ (_ : World). s) (process env r)) w))
        e

  abbrev pub after_credentials : Handler ApiResponse ApiResponse
  after_credentials = route env r a >>= store_payment env a

  abbrev pub after_lookup : Handler ApiResponse ApiResponse
  after_lookup = check_credentials env r a >> after_credentials

  pub process-checked :
      (w w' : World) (response : ApiResponse)
      → check_idempotency env a w ≡ reply response w'
      → process env r a w ≡ reply response w'
  unfolding process
  process-checked w w' response e =
      ap (λ (s : Step ApiResponse (Unit {0})). (◌>>◌ (λ (_ : World). s) after_lookup) w) e

  pub process-routed :
      (d : Routed) (w : World)
      → check_idempotency env a w ≡ next tt w
      → check_credentials env r a w ≡ next tt w
      → route env r a w ≡ next d w
      → process env r a w ≡ store_payment env a d w
  unfolding process
  process-routed d w unused allowed routed =
      ap (λ (s : Step ApiResponse (Unit {0})). (◌>>◌ (λ (_ : World). s) after_lookup) w) unused
      ∙ ap (λ (s : Step ApiResponse (Unit {0})). (◌>>◌ (λ (_ : World). s) after_credentials) w)
          allowed
      ∙ ap (λ (s : Step ApiResponse Routed). (◌>>=◌ (λ (_ : World). s) (store_payment env a)) w)
          routed
