-- ===== src/Payments/Retrieve/Overtaken.antt =====
-- A delivery that comes while GET of apps/web/app/api/[version]/payments/[id]/route.ts waits for the gateway:
-- the payment that was read is not the one that is written over.
use openwrapper.Prelude.{◌≡◌, refl, true}
use mathlib.Core.List.{Memᴰ}
use openwrapper.Js.Text.{Text, ===_refl}
use openwrapper.Store.Select.{update_where-Memᴰ}
use openwrapper.Store.{World, PaymentRow}
use openwrapper.Store.Handler.{final}
use openwrapper.Gateway.Bridge.{GatewayPayment, ok}
use openwrapper.Payments.Api.{Env}
use openwrapper.Payments.Retrieve.{
  has_id, Option, StripeSession, is_changed, merged, take_gateway, write_current,
}

module _ (env : Env) (retrieve_session : Text → Text → Option StripeSession) where
  -- The payment `p` was read, and what is stored of it is `q` by the time the gateway answers with a
  -- status or a reference other than those of `p`: the row gets the status of the answer whatever that of
  -- `q` is, succeeded and failed included. What the webhooks never undo, reading a payment can.
  pub take_gateway-overtaken :
      (p q : PaymentRow) (d : GatewayPayment) (w : World)
      → is_changed env retrieve_session p (merged p d) ≡ true
      → Memᴰ q w.payments
      → q.id ≡ p.id
      → (q' : PaymentRow) × Memᴰ q' (final (take_gateway env retrieve_session p (ok d) w)).payments
        × (q'.id ≡ p.id)
        × (q'.status ≡ d.status)
  unfolding take_gateway
  take_gateway-overtaken p q d w changed m same =
      let f = write_current env.now (merged p d) in
      let hit : has_id p.id q ≡ true = rw same (===_refl p.id) in
      (f q, rw changed (update_where-Memᴰ (has_id p.id) f w.payments q hit m), same, refl)
