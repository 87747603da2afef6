-- ===== src/Webhooks/Applied.antt =====
-- The database work of the four webhooks keeps the payments that have ended, and their checks write
-- nothing (apps/web/app/api/webhooks/*/route.ts).
use mathlib.Core.List.{Memᴰ}
use openwrapper.Prelude.{
  if◌then◌else◌, Bool, ◌≡◌, inl, inr, refl, sym, ◌∙◌, true, false, Option, none, some, List, arith,
  Bool-cases,
}
use openwrapper.Js.Text.{Text, ===_iff}
use openwrapper.Store.{Sql, PaymentRow, World}
use openwrapper.Store.Handler.{final}
use openwrapper.Ledger.Status.{is_terminal}
use openwrapper.Ledger.Persist.{has_id}
use openwrapper.Ledger.Terminal.{
  Keeps, Keeps-refl, HasDistinctIds, ids, update_where-Keeps, ids-update_where,
}
use openwrapper.Webhooks.Shared.{
  HookEnv, HookRequest, StripeEvent, is_illegal, apply_status, apply_found,
}
use openwrapper.Webhooks.Fawry.{FawryPayload, verify_fawry, apply_fawry}
use openwrapper.Webhooks.Paymob.{PaymobEvent, verify_paymob, apply_paymob}
use openwrapper.Webhooks.Stripe.{find_session, verify_stripe, apply_stripe}
use openwrapper.Webhooks.Mock.{MockEvent, or_else, verify_mock, apply_mock}

-- What a handler keeps: the payments that have ended, and the primary key.
abbrev pub Preserves : World → World → Type 0
Preserves w w' = Keeps w.payments w'.payments × (ids w'.payments ≡ ids w.payments)

pub Preserves-refl : (w : World) → Preserves w w
Preserves-refl w = (Keeps-refl w.payments, refl)

pub legal_keeps :
    (found : PaymentRow) (status : Text)
    → is_illegal found status ≡ false
    → is_terminal found.status ≡ true
    → status ≡ found.status
unfolding is_illegal
legal_keeps found status legal ended = sym ((===_iff found.status status).0 (ground arith))

module _ (rows : List PaymentRow) (status : Text) (set : PaymentRow → PaymentRow → PaymentRow)
    (same_id : (found x : PaymentRow) → (set found x).id ≡ x.id)
    (same_status : (found x : PaymentRow) → (set found x).status ≡ status) where
  pub apply_status-Keeps :
      (found : PaymentRow)
      → Memᴰ found rows
      → HasDistinctIds rows
      → Keeps rows (apply_status found status (set found) rows)
  unfolding apply_status
  apply_status-Keeps found m d = elim (Bool-cases (is_illegal found status)) [
    | inl illegal ↦ rw illegal (Keeps-refl rows)
    | inr legal ↦ rw legal (
        update_where-Keeps (set found) rows m d (same_id found)
          (λ ended. same_status found found ∙ legal_keeps found status legal ended))
  ]

  pub apply_found-Keeps :
      (found : Option PaymentRow)
      → ((r : PaymentRow) → found ≡ some r → Memᴰ r rows)
      → HasDistinctIds rows
      → Keeps rows (apply_found found status set rows)
  apply_found-Keeps none m d = Keeps-refl rows
  apply_found-Keeps (some found) m d = apply_status-Keeps found (m found refl) d

  pub ids-apply_found :
      (found : Option PaymentRow) → ids (apply_found found status set rows) ≡ ids rows
  unfolding apply_status
  ids-apply_found none = refl
  ids-apply_found (some found) =
      ground (arith, ids-update_where (has_id found.id) (set found) rows (same_id found))

pub verify_fawry-final :
    (env : HookEnv) (r : HookRequest) (w : World) → final (verify_fawry env r w) ≡ w
unfolding verify_fawry
verify_fawry-final env r w = ground arith

pub verify_paymob-final :
    (env : HookEnv) (r : HookRequest) (w : World) → final (verify_paymob env r w) ≡ w
unfolding verify_paymob
verify_paymob-final env r w = ground arith

pub verify_stripe-final :
    (env : HookEnv) (r : HookRequest) (w : World) → final (verify_stripe env r w) ≡ w
unfolding verify_stripe
verify_stripe-final env r w = ground arith

pub verify_mock-final :
    (env : HookEnv) (r : HookRequest) (w : World) → final (verify_mock env r w) ≡ w
unfolding verify_mock
verify_mock-final env r w = ground arith

pub select_mem :
    (sql : Sql) (p : PaymentRow → Bool) (rows : List PaymentRow) (r : PaymentRow)
    → sql.select_one p rows ≡ some r
    → Memᴰ r rows
select_mem sql p rows r e = (sql.select_one_sound p rows r e).0

-- A lookup that is made only under a condition.
pub guarded_mem :
    (b : Bool) (sql : Sql) (p : PaymentRow → Bool) (rows : List PaymentRow) (r : PaymentRow)
    → (if b then sql.select_one p rows else none) ≡ some r
    → Memᴰ r rows
guarded_mem true sql p rows r e = select_mem sql p rows r e
guarded_mem false sql p rows r e = cc

pub or_else_mem :
    (a b : Option PaymentRow) (rows : List PaymentRow) (r : PaymentRow)
    → ((q : PaymentRow) → a ≡ some q → Memᴰ q rows)
    → ((q : PaymentRow) → b ≡ some q → Memᴰ q rows)
    → or_else a b ≡ some r
    → Memᴰ r rows
or_else_mem none b rows r ha hb e = hb r e
or_else_mem (some q) b rows r ha hb e = ha r e

pub session_mem :
    (env : HookEnv) (session : Option Text) (w : World) (r : PaymentRow)
    → find_session env session w ≡ some r
    → Memᴰ r w.payments
session_mem env none w r e = cc
session_mem env (some id) w r e = select_mem env.sql _ w.payments r e

module _ (env : HookEnv) (w : World) (distinct : HasDistinctIds w.payments) where
  pub apply_fawry-Preserves : (p : FawryPayload) → Preserves w (apply_fawry env p w)
  unfolding apply_fawry
  apply_fawry-Preserves p = (
    apply_found-Keeps w.payments _ _ (λ found x. refl) (λ found x. refl) _
        (guarded_mem _ env.sql _ w.payments) distinct,
    ids-apply_found w.payments _ _ (λ found x. refl) (λ found x. refl) _,
  )

  pub apply_paymob-Preserves : (e : PaymobEvent) → Preserves w (apply_paymob env e w)
  unfolding apply_paymob
  apply_paymob-Preserves e = (
    apply_found-Keeps w.payments _ _ (λ found x. refl) (λ found x. refl) _
        (guarded_mem _ env.sql _ w.payments) distinct,
    ids-apply_found w.payments _ _ (λ found x. refl) (λ found x. refl) _,
  )

  pub apply_stripe-Preserves : (e : StripeEvent) → Preserves w (apply_stripe env e w)
  unfolding apply_stripe
  apply_stripe-Preserves e = (
    apply_found-Keeps w.payments _ _ (λ found x. refl) (λ found x. refl) _ (session_mem env _ w)
        distinct,
    ids-apply_found w.payments _ _ (λ found x. refl) (λ found x. refl) _,
  )

  pub apply_mock-Preserves : (e : MockEvent) → Preserves w (apply_mock env e w)
  unfolding apply_mock
  apply_mock-Preserves e = (
    apply_found-Keeps w.payments _ _ (λ found x. refl) (λ found x. refl) _
        (λ r.
          or_else_mem _ _ w.payments r (guarded_mem _ env.sql _ w.payments)
            (guarded_mem _ env.sql _ w.payments))
        distinct,
    ids-apply_found w.payments _ _ (λ found x. refl) (λ found x. refl) _,
  )
