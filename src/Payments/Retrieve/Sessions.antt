-- ===== src/Payments/Retrieve/Sessions.antt =====
-- A checkout that is complete and not paid, read through GET of
-- apps/web/app/api/[version]/payments/[id]/route.ts, and the webhooks that come after it.
use mathlib.Core.List.{Memᴰ}
use openwrapper.Prelude.{ℕ, ◌≡◌, refl, sym, ◌∙◌, ap, subst, true, some, Option, List, [], ◌∷◌}
use openwrapper.Js.Text.{Text, codes, ◌===◌, ===_refl, truthy, starts_with}
use openwrapper.Store.{World, PaymentRow}
use openwrapper.Store.Select.{update_where-Memᴰ}
use openwrapper.Store.Handler.{Step, final}
use openwrapper.Ledger.Status.{is_terminal}
use openwrapper.Ledger.Persist.{has_id}
use openwrapper.Ledger.Terminal.{Keeps, HasDistinctIds, ids-update_where, Distinct}
use openwrapper.Gateway.Bridge.{refused}
use openwrapper.Webhooks.Terminal.{Deliveries, Deliveries-Preserve}
use openwrapper.Payments.Api.{ApiResponse, Env, Request}
use openwrapper.Store.Handler.{reply, raise}
use openwrapper.Ledger.Terminal.{ids}
use openwrapper.Access.Version.{valid, validate_api_version}
use openwrapper.Access.Authenticator.{AuthKey}
use openwrapper.Payments.Create.Admit.{authenticate}
use openwrapper.Payments.Retrieve.Reads.{show_payment, find_payment_sound}
use openwrapper.Payments.Retrieve.{
  next, ◌>>=◌, Current, false, retrieve, find_payment, is_payment_id,
}
use openwrapper.Payments.Retrieve.{
  StripeSession, resolved_status, refresh, take_gateway, take_stripe, current_of, asked, stripe_key,
  asks_stripe, is_open, write_resolved, set_payments,
}

-- What follows keeps a payment that has ended.
Keeps-Memᴰ :
    (rows rows' : List PaymentRow) (r : PaymentRow)
    → Keeps rows rows'
    → Memᴰ r rows
    → is_terminal r.status ≡ true
    → (q : PaymentRow) × Memᴰ q rows' × (q.id ≡ r.id) × (q.status ≡ r.status)
Keeps-Memᴰ [] rows' r h m t = elim m [ ]
Keeps-Memᴰ (x ∷ rows) [] r h m t = absurd h
Keeps-Memᴰ (x ∷ rows) (y ∷ rows') r (same, kept, h) (Memᴰ.head e) t = (
  y,
  Memᴰ.head refl,
  same ∙ ap (λ (p : PaymentRow). p.id) (sym e),
  kept (ap (λ (p : PaymentRow). is_terminal p.status) (sym e) ∙ t)
      ∙ ap (λ (p : PaymentRow). p.status) (sym e),
)
Keeps-Memᴰ (x ∷ rows) (y ∷ rows') r (same, kept, h) (Memᴰ.tail m) t =
    let (q, n, id, status) = Keeps-Memᴰ rows rows' r h m t in (q, Memᴰ.tail n, id, status)

resolved_status_complete :
    (s : StripeSession)
    → s.status ≡ codes "complete"
    → s.payment_status ≡ codes "unpaid"
    → resolved_status s ≡ some (codes "succeeded")
unfolding resolved_status
resolved_status_complete s complete unpaid = rw (complete, unpaid) refl

is_open-pending :
    (p : PaymentRow) → p.provider ≡ codes "stripe" → p.status ≡ codes "pending" → is_open p ≡ true
unfolding is_open
is_open-pending p stripe pending = rw (stripe, pending) refl

module _ (env : Env) (retrieve_session : Text → Text → Option StripeSession) (r : Request)
    (version id : Text) (w : World) where
  asks_stripe-pending :
      (p : PaymentRow) (key reference : Text)
      → p.status ≡ codes "pending"
      → p.provider ≡ codes "stripe"
      → p.provider_reference ≡ some reference
      → starts_with reference (codes "cs_") ≡ true
      → stripe_key env retrieve_session r ≡ some key
      → truthy key ≡ true
      → asks_stripe env retrieve_session r p (current_of p) ≡ true
  unfolding ◌===◌
  asks_stripe-pending p key reference pending stripe stored checkout given filled =
      rw (pending, stripe, stored, checkout, given, filled) refl

  refresh-session :
      (p : PaymentRow) (key reference : Text) (s : StripeSession) (status : ℕ) (error : Text)
      (code : Option Text)
      → is_open p ≡ true
      → asked env retrieve_session r version id ≡ refused status error code
      → asks_stripe env retrieve_session r p (current_of p) ≡ true
      → stripe_key env retrieve_session r ≡ some key
      → p.provider_reference ≡ some reference
      → retrieve_session key reference ≡ some s
      → resolved_status s ≡ some (codes "succeeded")
      → final (refresh env retrieve_session r version id p w)
        ≡ set_payments p.id (write_resolved env.now (codes "succeeded")) w
  unfolding refresh take_stripe take_gateway
  refresh-session p key reference s status error code opened answer asks given stored said
        resolved =
      rw (opened, answer, asks, given, stored, said, resolved) refl

  -- Showing a payment after it was brought up to date writes no payment.
  show_payment-payments :
      (caller : AuthKey) (p : PaymentRow) (s : Step ApiResponse Current)
      → (final (
          (◌>>=◌ (λ (_ : World). s) (show_payment env retrieve_session id r version caller p))
            w)).payments
        ≡ (final s).payments
  show_payment-payments caller p (next c v) = refl
  show_payment-payments caller p (reply response v) = refl
  show_payment-payments caller p (raise v) = refl

  retrieve-found :
      (caller : AuthKey) (p : PaymentRow)
      → validate_api_version r.version ≡ valid version
      → authenticate env r w ≡ some caller
      → is_payment_id id ≡ true
      → env.lookup_fails ≡ false
      → find_payment env retrieve_session caller.user_id id w ≡ some p
      → (final (retrieve env retrieve_session id r w)).payments
        ≡ (final (refresh env retrieve_session r version id p w)).payments
  unfolding retrieve
  retrieve-found caller p supported known good up found =
      rw (supported, known, good, up, found)
        (show_payment-payments caller p (refresh env retrieve_session r version id p w))

  -- The caller reads a pending Stripe payment of their own with GET. The gateway gives no payment, and
  -- Stripe says of the checkout session that it is complete and unpaid. The payment is then stored as
  -- succeeded, and so it stays whatever webhooks arrive later, in any order. The request is a good one,
  -- the payment has a checkout session as its reference, a key of Stripe is given, the database works
  -- and the ids of the table are distinct.
  pub retrieve-unpaid :
      {w' : World} (caller : AuthKey) (p : PaymentRow) (key reference : Text) (s : StripeSession)
      (status : ℕ) (error : Text) (code : Option Text)
      → HasDistinctIds w.payments
      → validate_api_version r.version ≡ valid version
      → authenticate env r w ≡ some caller
      → is_payment_id id ≡ true
      → env.lookup_fails ≡ false
      → find_payment env retrieve_session caller.user_id id w ≡ some p
      → p.provider ≡ codes "stripe"
      → p.status ≡ codes "pending"
      → p.provider_reference ≡ some reference
      → starts_with reference (codes "cs_") ≡ true
      → stripe_key env retrieve_session r ≡ some key
      → truthy key ≡ true
      → asked env retrieve_session r version id ≡ refused status error code
      → retrieve_session key reference ≡ some s
      → s.status ≡ codes "complete"
      → s.payment_status ≡ codes "unpaid"
      → Deliveries (final (retrieve env retrieve_session id r w)) w'
      → (q : PaymentRow) × Memᴰ q w'.payments × (q.id ≡ p.id) × (q.status ≡ codes "succeeded")
  unfolding is_terminal
  retrieve-unpaid {w'} caller p key reference s status error code distinct supported known good up
        found stripe pending stored checkout given filled answer said complete unpaid later =
      let settled_now =
        refresh-session p key reference s status error code (is_open-pending p stripe pending)
          answer (asks_stripe-pending p key reference pending stripe stored checkout given filled)
          given stored said (resolved_status_complete s complete unpaid) in
      let run =
        retrieve-found caller p supported known good up found
        ∙ ap (λ (v : World). v.payments) settled_now in
      let f = write_resolved env.now (codes "succeeded") in
      let (m, _) = find_payment_sound env retrieve_session caller.user_id id w p found in
      let now_in = update_where-Memᴰ (has_id p.id) f w.payments p (===_refl p.id) m in
      let same_ids = ids-update_where (has_id p.id) f w.payments (λ x. refl) in
      let (kept, _) =
        Deliveries-Preserve (subst Distinct (sym (ap ids run ∙ same_ids)) distinct) later in
      Keeps-Memᴰ _ w'.payments (f p) kept (subst (λ rows. Memᴰ (f p) rows) (sym run) now_in) refl
