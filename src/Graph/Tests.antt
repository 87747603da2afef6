-- ===== src/Graph/Tests.antt =====
-- The GraphQL resolvers on concrete rows.
use openwrapper.Prelude.{◌≤◌, ◌≡◌, refl, none, some, All, length}
use openwrapper.Js.Text.{codes}
use mathlib.Core.List.{Memᴰ}
use openwrapper.Store.{PaymentRow}
use openwrapper.Store.Laws.{first_sql}
use openwrapper.Store.Newest.Laws.{IsNewestFirst}
use openwrapper.Webhooks.Tests.{live_row, one_payment}
use openwrapper.Graph.Resolvers.{GraphContext, PaymentsArgs, payments_resolver, payment_resolver}
use openwrapper.Graph.Endpoint.{context_of}
use openwrapper.Graph.Resolvers.Own.{payments_resolver-own, payment_resolver-anonymous}

abbrev no_args : PaymentsArgs
no_args = record { status = none; provider = none; limit = none; offset = none }

abbrev known : GraphContext
known = record { user_id = some (codes "u1"); user_email = none; user_name = none }

payments_resolver-own_example :
    (length (payments_resolver no_args known one_payment) ≤ 100)
    × All (λ p. p.user_id ≡ some (codes "u1")) (payments_resolver no_args known one_payment)
    × IsNewestFirst (λ (p : PaymentRow). p.created_at) (payments_resolver no_args known one_payment)
payments_resolver-own_example =
    payments_resolver-own no_args known one_payment b'u' (codes "1") refl

payment_resolver-anonymous_example :
    (q : PaymentRow) × (payment_resolver first_sql live_row.id (context_of none none).0 one_payment
      ≡ some q)
    × (q.id ≡ live_row.id)
payment_resolver-anonymous_example =
    payment_resolver-anonymous first_sql one_payment live_row (Memᴰ.head refl)
