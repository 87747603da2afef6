-- ===== src/Ledger/Status.antt =====
-- apps/web/lib/payment-status-resolver.ts
use openwrapper.Prelude.{Bool, ◌&&◌, ◌||◌, if◌then◌else◌}
use openwrapper.Js.Text.{Text, codes, ◌===◌, present}
use openwrapper.Store.{PaymentRow}

unfoldable pub normalize_payment_status : Text → Bool → Text
unfolding ◌===◌
normalize_payment_status status has_next_action =
    if status === codes "succeeded" || status === codes "failed"
    then status
    else if status === codes "pending" || (status === codes "unknown" && has_next_action)
    then codes "pending"
    else codes "unknown"

unfoldable pub payment_has_next_action : PaymentRow → Bool
payment_has_next_action row = present row.next_action_type || present row.next_action_payload

-- `status === "succeeded" || status === "failed"`, the test by which the handlers protect a payment
-- that has ended.
unfoldable pub is_terminal : Text → Bool
unfolding ◌===◌
is_terminal status = status === codes "succeeded" || status === codes "failed"
