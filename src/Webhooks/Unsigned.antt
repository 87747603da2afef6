-- ===== src/Webhooks/Unsigned.antt =====
-- What the mock webhook does without a signature (apps/web/app/api/webhooks/mock/route.ts).
use mathlib.Core.List.{Memᴰ}
use openwrapper.Js.Text.{===_refl}
use openwrapper.Js.Json.{get, str}
use openwrapper.Store.Select.{update_where-Memᴰ}
use openwrapper.Ledger.Terminal.{HasDistinctIds, select_one-has_id}
use openwrapper.Prelude.{
  sym, subst, ◌∙◌, if◌then◌else◌, ◌≡◌, refl, ap, true, false, none, some, arith,
}
use openwrapper.Js.Text.{Text, codes, truthy}
use openwrapper.Js.Json.{obj, Fields}
use openwrapper.Store.{World, PaymentRow, update_where}
use openwrapper.Store.Handler.{Handler, modify, pure, ◌>>=◌, ◌>>◌, Step, next, final}
use openwrapper.Access.BodyReader.{body_ok, read_limited_text_body}
use openwrapper.Ledger.Persist.{has_id}
use openwrapper.Webhooks.Shared.{
  HookEnv, HookRequest, HookReply, received, max_hook_body, is_illegal, apply_status,
}
use openwrapper.Webhooks.Mock.{
  MockEvent, read_event, set_payment, verify_mock, apply_mock, mock_webhook, is_signed_or_bare,
}

-- The row of a payment that somebody has settled: the same payment, and it has succeeded.
abbrev pub IsSettled : PaymentRow → PaymentRow → Type 0
IsSettled row q =
    (q.id ≡ row.id)
    × (q.user_id ≡ row.user_id)
    × (q.provider ≡ row.provider)
    × (q.environment ≡ row.environment)
    × (q.amount_minor_units ≡ row.amount_minor_units)
    × (q.status ≡ codes "succeeded")

module _ (env : HookEnv) (r : HookRequest) (w : World) where
  verify_mock-bare :
      (text : Text) (fs : Fields)
      → read_limited_text_body env.decode max_hook_body r.body ≡ body_ok text
      → env.parse_json text ≡ some (obj fs)
      → r.headers (codes "x-mock-signature") ≡ none
      → r.headers (codes "x-signature") ≡ none
      → verify_mock env r w ≡ next (read_event env.uuid (obj fs)) w
  unfolding verify_mock is_signed_or_bare
  verify_mock-bare text fs body parsed a b = ground arith

  apply_mock-by_id :
      (e : MockEvent) (row : PaymentRow)
      → truthy e.explicit_payment_id ≡ true
      → env.sql.select_one (has_id e.explicit_payment_id) w.payments ≡ some row
      → is_illegal row e.status ≡ false
      → (apply_mock env e w).payments
        ≡ update_where (has_id row.id) (set_payment e env.now row) w.payments
  unfolding apply_mock apply_status
  apply_mock-by_id e row given found legal = rw (given, found, legal) refl

  read_event-payment_id :
      (fs : Fields) (id : Text)
      → get (obj fs) (codes "payment_id") ≡ some (str id)
      → truthy id ≡ true
      → (read_event env.uuid (obj fs)).explicit_payment_id ≡ id
  unfolding read_event
  read_event-payment_id fs id named filled = rw (named, filled, filled) refl

  read_event-status :
      (fs : Fields)
      → get (obj fs) (codes "status") ≡ none
      → (read_event env.uuid (obj fs)).status ≡ codes "succeeded"
  unfolding read_event
  read_event-status fs no_status = rw no_status refl

  is_illegal-pending :
      (row : PaymentRow) (status : Text)
      → row.status ≡ codes "pending"
      → is_illegal row status ≡ false
  unfolding is_illegal
  is_illegal-pending row status pending = rw pending refl

  abbrev finish : MockEvent → Handler HookReply HookReply
  finish e =
      modify (λ v. if env.db_fails then v else apply_mock env e v)
      >> pure (record { status = 200; body = received e.status })

  mock_webhook-by_id :
      (text : Text) (fs : Fields) (row : PaymentRow)
      → read_limited_text_body env.decode max_hook_body r.body ≡ body_ok text
      → env.parse_json text ≡ some (obj fs)
      → r.headers (codes "x-mock-signature") ≡ none
      → r.headers (codes "x-signature") ≡ none
      → env.db_fails ≡ false
      → truthy (read_event env.uuid (obj fs)).explicit_payment_id ≡ true
      → env.sql.select_one (has_id (read_event env.uuid (obj fs)).explicit_payment_id) w.payments
        ≡ some row
      → is_illegal row (read_event env.uuid (obj fs)).status ≡ false
      → (final (mock_webhook env r w)).payments
        ≡ update_where
            (has_id row.id)
            (set_payment (read_event env.uuid (obj fs)) env.now row)
            w.payments
  unfolding mock_webhook
  mock_webhook-by_id text fs row body parsed a b up given found legal =
      ap
        (λ (s : Step HookReply MockEvent). (final ((◌>>=◌ (λ (_ : World). s) (finish)) w)).payments)
        (verify_mock-bare text fs body parsed a b)
      ∙ rw up (apply_mock-by_id (read_event env.uuid (obj fs)) row given found legal)

  -- Whoever knows the id of a pending payment, of any provider, owner and environment, makes it
  -- succeed: a request without a signature header, whose body is an object with the id as `payment_id`
  -- and no status, leaves that payment, with its owner, provider, environment and amount, in the table
  -- with the status "succeeded". The id is not empty, the ids of the table are distinct and the
  -- database works.
  pub mock_webhook-unsigned :
      (text : Text) (fs : Fields) (row : PaymentRow)
      → read_limited_text_body env.decode max_hook_body r.body ≡ body_ok text
      → env.parse_json text ≡ some (obj fs)
      → r.headers (codes "x-mock-signature") ≡ none
      → r.headers (codes "x-signature") ≡ none
      → env.db_fails ≡ false
      → get (obj fs) (codes "payment_id") ≡ some (str row.id)
      → get (obj fs) (codes "status") ≡ none
      → truthy row.id ≡ true
      → HasDistinctIds w.payments
      → Memᴰ row w.payments
      → row.status ≡ codes "pending"
      → (q : PaymentRow) × Memᴰ q (final (mock_webhook env r w)).payments × IsSettled row q
  mock_webhook-unsigned text fs row body parsed a b up named no_status filled distinct m pending =
      let e = read_event env.uuid (obj fs) in
      let id : e.explicit_payment_id ≡ row.id = read_event-payment_id fs row.id named filled in
      let status : e.status ≡ codes "succeeded" = read_event-status fs no_status in
      let legal : is_illegal row e.status ≡ false = is_illegal-pending row e.status pending in
      let run =
        mock_webhook-by_id text fs row body parsed a b up (ap truthy id ∙ filled)
          (ap (λ i. env.sql.select_one (has_id i) w.payments) id
            ∙ select_one-has_id env.sql row w.payments distinct m)
          legal in
      let f = set_payment e env.now row in
      (
        f row,
        subst (λ rows. Memᴰ (f row) rows) (sym run)
            (update_where-Memᴰ (has_id row.id) f w.payments row (===_refl row.id) m),
        (refl, refl, refl, refl, refl, status),
      )
