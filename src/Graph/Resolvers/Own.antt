-- ===== src/Graph/Resolvers/Own.antt =====
-- Whose payments the resolvers of apps/web/lib/graphql/resolvers.ts show.
use mathlib.Core.List.{Memᴰ}
use openwrapper.Prelude.{
  ℕ, ◌≤◌, ◌≡◌, true, false, ◌&&◌, none, some, List, [], ◌∷◌, All, arith, length, Option-cases, inl,
  inr,
}
use openwrapper.Js.Text.{Text, ◌===◌, ===_iff, ===_refl}
use openwrapper.Store.{World, Sql, PaymentRow, column_is}
use openwrapper.Store.Newest.Laws.{IsNewestFirst, page_newest_sound}
use openwrapper.Store.Select.{All-Memᴰ}
use openwrapper.Ledger.Idempotency.{column_is_sound}
use openwrapper.Sdk.Money.{ℤ, pos, negsuc}
use openwrapper.Graph.Resolvers.{
  default_limit, or_default, GraphContext, PaymentsArgs, is_wanted, safe_limit, safe_offset,
  payments_resolver, payment_resolver,
}
use openwrapper.Graph.Endpoint.{context_of}

safe_limit-le : (n : ℤ) → safe_limit n ≤ 100
safe_limit-le (pos n) = ground arith
safe_limit-le (negsuc n) = omega arith

wanted-own :
    (context : GraphContext) (args : PaymentsArgs) (first : ℕ) (rest : Text)
    (rows : List PaymentRow)
    → context.user_id ≡ some (first ∷ rest)
    → All (λ p. is_wanted context args p ≡ true) rows
    → All (λ p. p.user_id ≡ some (first ∷ rest)) rows
wanted-own context args first rest [] e h = tt
wanted-own context args first rest (p ∷ rows) e (t, h) =
    let own : column_is p.user_id (first ∷ rest) ≡ true = ground arith in
    (column_is_sound p.user_id (first ∷ rest) own, wanted-own context args first rest rows e h)

-- With a user in the context, the query shows at most 100 payments, all of them of that user, the newest
-- first, whatever the limit and the offset.
pub payments_resolver-own :
    (args : PaymentsArgs) (context : GraphContext) (w : World) (first : ℕ) (rest : Text)
    → context.user_id ≡ some (first ∷ rest)
    → (length (payments_resolver args context w) ≤ 100)
      × All (λ p. p.user_id ≡ some (first ∷ rest)) (payments_resolver args context w)
      × IsNewestFirst (λ (p : PaymentRow). p.created_at) (payments_resolver args context w)
unfolding payments_resolver
payments_resolver-own args context w first rest e =
    let (short, pass, sorted) =
      page_newest_sound (λ (p : PaymentRow). p.created_at) (is_wanted context args)
        (safe_limit (or_default args.limit default_limit))
        (safe_offset (or_default args.offset (pos 0))) w.payments in
    (
      omega (arith, short, safe_limit-le (or_default args.limit default_limit)),
      wanted-own context args first rest _ e pass,
      sorted,
    )

-- A request with neither a session nor a key is run with no user, and then shows every payment whose id it
-- names, of whatever merchant.
pub payment_resolver-anonymous :
    (sql : Sql) (w : World) (p : PaymentRow)
    → Memᴰ p w.payments
    → (q : PaymentRow) × (payment_resolver sql p.id (context_of none none).0 w ≡ some q)
      × (q.id ≡ p.id)
unfolding payment_resolver context_of
payment_resolver-anonymous sql w p m =
    let test = λ (x : PaymentRow). x.id === p.id && true in
    elim (Option-cases (sql.select_one test w.payments)) [
      | inl missing ↦
          let none_of = sql.select_one_none test w.payments missing in
          let f : test p ≡ false = All-Memᴰ (λ x. test x ≡ false) w.payments p none_of m in
          let t : (p.id === p.id) ≡ true = ===_refl p.id in ground arith
      | inr (q, found) ↦
          let (_, pass) = sql.select_one_sound test w.payments q found in
          (q, found, (===_iff q.id p.id).0 (ground arith))
    ]
