-- ===== src/Payments/Create/Idempotence.antt =====
-- A `POST` that is repeated with its idempotency key: apps/web/app/api/[version]/payments/route.ts.
use openwrapper.Ledger.Idempotency.{absent, found}
use openwrapper.Payments.Create.Admit.{admit}
use openwrapper.Payments.Create.Route.{route}
use openwrapper.Ledger.Terminal.{ids}
use openwrapper.Js.Json.{Json}
use openwrapper.Gateway.Bridge.{Fetched}
use openwrapper.Gateway.Headers.{Entries}
use openwrapper.Payments.Create.Admission.{admit-IsSteady}
use openwrapper.Ledger.Idempotency.{find_idempotent_payment}
use openwrapper.Payments.Input.{parse_payment_input}
use openwrapper.Payments.Create.Admit.{assemble}
use openwrapper.Prelude.{sym, ◌≡◌, refl, ◌∙◌, ap, false, none, List, [], ◌∷◌, ◌++◌, ℕ}
use openwrapper.Js.Text.{Text}
use openwrapper.Store.{World, PaymentRow}
use openwrapper.Store.Handler.{next}
use openwrapper.Ledger.Persist.{new_row, set_row}
use openwrapper.Ledger.Replay.{
  find_idempotent_payment-last, find_idempotent_payment-absent, new_row-has_user_key, IsFresh,
}
use openwrapper.Payments.Api.{StripeOutcome, Request, StripeParams, Env, payment}
use openwrapper.Payments.Create.Admit.{mode, Admitted}
use openwrapper.Payments.Create.Replay.{lookup_in, replay_input}
use openwrapper.Payments.Create.Gateway.{Routed}
use openwrapper.Payments.Create.Post.{caught, check_credentials, post, create_input}
use openwrapper.Payments.Create.Stages.{
  created_world, response, payment_to_api_response-replay, check_idempotency-absent, log_of,
  store_payment-fresh, check_idempotency-found, post-admitted, process-checked, process-routed,
}

-- The same service later: other answers of the gateway and of Stripe, another random id, another time.
abbrev pub at_later :
    Env
    → (Json → Text → Entries → Fetched)
    → (Text → StripeParams → StripeOutcome)
    → Text
    → ℕ
    → ℕ
    → Env
at_later env gateway stripe random_hex now routing_ms = record env {
  gateway_create = gateway;
  stripe_create = stripe;
  random_hex = random_hex;
  now = now;
  routing_ms = routing_ms;
}

-- The first `POST` of a request that is admitted, under a key that is not used yet, stores one new
-- payment behind the others, logs itself and shows the payment with status 201.
pub post_creates :
    (env : Env) (r : Request) (a : Admitted) (d : Routed) (w : World)
    → admit env r w ≡ next a w
    → lookup_in env a w ≡ absent
    → check_credentials env r a w ≡ next tt w
    → route env r a w ≡ next d w
    → env.persist_fails ≡ false
    → IsFresh d.payment_id w.payments
    → post env r w ≡ (
      response 201 a (new_row (create_input env a d) env.now),
      created_world env a d (log_of env a 201 d.routing_latency_ms) w,
    )
post_creates env r a d w admitted unused allowed routed up fresh =
    post-admitted env r a w admitted
    ∙ ap (caught env) (
        process-routed env r a d w (check_idempotency-absent env a w unused) allowed routed
        ∙ store_payment-fresh env a d w up fresh)

module _ (env : Env) (r : Request) (a : Admitted) (d : Routed) (w : World) where
  abbrev stored_row : PaymentRow
  stored_row = new_row (create_input env a d) env.now

  abbrev later_world : World
  later_world = created_world env a d (log_of env a 201 d.routing_latency_ms) w

  -- The lookup after the payment is stored.
  lookup_in-created :
      env.lookup_fails ≡ false
      → lookup_in env a w ≡ absent
      → lookup_in env a later_world ≡ found stored_row
  lookup_in-created db unused =
      let user = a.key.user_id in
      let lookup = find_idempotent_payment env.sql user a.idempotency_key (mode a) in
      let none_before = sym (ap (lookup w.payments) db) ∙ unused in
      ap (lookup later_world.payments) db
      ∙ find_idempotent_payment-last env.sql user a.idempotency_key (mode a) w.payments stored_row
          (find_idempotent_payment-absent env.sql user a.idempotency_key (mode a) w.payments
            none_before)
          (new_row-has_user_key env.now (create_input env a d) (mode a) refl)

  post_replays :
      (later : Env)
      → admit later r later_world ≡ next a later_world
      → lookup_in later a later_world ≡ found stored_row
      → later.persist_fails ≡ false
      → IsFresh d.payment_id w.payments
      → let attached = set_row (replay_input later a stored_row) later.now stored_row in
        post later r later_world ≡ (
          response 200 a attached,
          record later_world {
            payments = w.payments ++ attached ∷ [];
            scheduled = later_world.scheduled ++ log_of later a 200 none ∷ [];
          },
        )
  post_replays later admitted known up fresh =
      post-admitted later r a later_world admitted
      ∙ ap (caught later) (
          process-checked later r a later_world _ _ (
            check_idempotency-found later a later_world w.payments stored_row up known refl refl
              fresh))

admit-at_later :
    (env : Env) (gateway : Json → Text → Entries → Fetched)
    (stripe : Text → StripeParams → StripeOutcome) (random_hex : Text) (now routing_ms : ℕ)
    (r : Request) (w : World)
    → admit (at_later env gateway stripe random_hex now routing_ms) r w ≡ admit env r w
unfolding admit parse_payment_input assemble
admit-at_later env gateway stripe random_hex now routing_ms r w = refl

ids-append :
    (rows : List PaymentRow) (row : PaymentRow) → ids (rows ++ row ∷ []) ≡ ids rows ++ row.id ∷ []
ids-append [] row = refl
ids-append (r ∷ rows) row = ap (λ t. r.id ∷ t) (ids-append rows row)

-- The same request sent again, whatever the gateway and Stripe would say now: it is answered from the
-- stored payment with status 200 and the same body as the first time, and no payment is added.
pub post-post :
    (env : Env) (r : Request) (a : Admitted) (d : Routed) (w : World)
    (gateway : Json → Text → Entries → Fetched) (stripe : Text → StripeParams → StripeOutcome)
    (random_hex : Text) (now routing_ms : ℕ)
    → admit env r w ≡ next a w
    → lookup_in env a w ≡ absent
    → check_credentials env r a w ≡ next tt w
    → route env r a w ≡ next d w
    → env.lookup_fails ≡ false
    → env.persist_fails ≡ false
    → IsFresh d.payment_id w.payments
    → let (first, w') = post env r w in
      let (second, w'') = post (at_later env gateway stripe random_hex now routing_ms) r w' in
      (first.status ≡ 201)
      × (second.status ≡ 200)
      × (second.body ≡ first.body)
      × (ids w'.payments ≡ ids w.payments ++ d.payment_id ∷ [])
      × (ids w''.payments ≡ ids w'.payments)
post-post env r a d w gateway stripe random_hex now routing_ms admitted unused allowed routed db up
      fresh =
    let later = at_later env gateway stripe random_hex now routing_ms in
    let first = post_creates env r a d w admitted unused allowed routed up fresh in
    let again =
      post_replays env r a d w later
        (admit-at_later env gateway stripe random_hex now routing_ms r _
          ∙ (admit-IsSteady env r w a w admitted).1 _ refl)
        (lookup_in-created env r a d w db unused) up fresh in
    rw (first, again)
      (
        refl,
        refl,
        ap payment (payment_to_api_response-replay env later a d _),
        ids-append w.payments _,
        ids-append w.payments _ ∙ sym (ids-append w.payments _),
      )
