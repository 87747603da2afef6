-- ===== src/Ledger/Fixed.antt =====
-- What an upsert of a payment (`persistPaymentRecord` of apps/web/lib/payment-ledger-service.ts) can
-- never change.
use openwrapper.Prelude.{◌≡◌, refl, Bool, true, false, List, [], ◌∷◌, ℕ, ◌≢◌, inl, inr, Bool-cases}
use openwrapper.Js.Text.{Text, ===_iff}
use openwrapper.Store.{PaymentRow, upsert}
use openwrapper.Ledger.Persist.{
  PersistPaymentInput, new_row, set_row, has_id, persist_payment_record,
}

-- The columns that identify a payment and say what it is worth.
abbrev pub IsSamePayment : PaymentRow → PaymentRow → Type 0
IsSamePayment r s =
    (s.id ≡ r.id)
    × (s.idempotency_key ≡ r.idempotency_key)
    × (s.provider ≡ r.provider)
    × (s.amount_minor_units ≡ r.amount_minor_units)
    × (s.currency ≡ r.currency)
    × (s.created_at ≡ r.created_at)

-- Row by row the payments are the same, those with other ids than `id` are unchanged, and at most one
-- row is added behind them.
abbrev pub IsUpsertOf : Text → List PaymentRow → List PaymentRow → Type 0
IsUpsertOf id [] [] = Unit
IsUpsertOf id [] (new ∷ []) = new.id ≡ id
IsUpsertOf id [] (new ∷ _ ∷ _) = ⊥
IsUpsertOf id (r ∷ rows) [] = ⊥
IsUpsertOf id (r ∷ rows) (s ∷ rows') =
    IsSamePayment r s × (r.id ≢ id → s ≡ r) × IsUpsertOf id rows rows'

IsUpsertOf-refl : (id : Text) (rows : List PaymentRow) → IsUpsertOf id rows rows
IsUpsertOf-refl id [] = tt
IsUpsertOf-refl id (r ∷ rows) =
    ((refl, refl, refl, refl, refl, refl), (λ _. refl), IsUpsertOf-refl id rows)

upsert-IsUpsertOf :
    (now : ℕ) (input : PersistPaymentInput) (rows : List PaymentRow)
    → IsUpsertOf input.id rows
        (upsert (has_id input.id) (set_row input now) (new_row input now) rows)
unfolding upsert
upsert-IsUpsertOf now input [] = refl
upsert-IsUpsertOf now input (r ∷ rows) = elim (Bool-cases (has_id input.id r)) [
  | inl same ↦ rw same (
    (refl, refl, refl, refl, refl, refl),
    (λ other. absurd (other ((===_iff r.id input.id).0 same))),
    IsUpsertOf-refl input.id rows,
  )
  | inr other ↦
      rw other ((refl, refl, refl, refl, refl, refl), (λ _. refl), upsert-IsUpsertOf now input rows)
]

-- Persisting a payment, whether the database works or not, never changes the idempotency key, the
-- provider, the amount, the currency or the creation time of any stored payment, touches no payment
-- with another id at all, and adds at most one row, which carries the id of the input.
pub persist_payment_record-IsUpsertOf :
    (fails : Bool) (now : ℕ) (input : PersistPaymentInput) (rows : List PaymentRow)
    → IsUpsertOf input.id rows (persist_payment_record fails now input rows).1
unfolding persist_payment_record
persist_payment_record-IsUpsertOf true now input rows = IsUpsertOf-refl input.id rows
persist_payment_record-IsUpsertOf false now input rows = upsert-IsUpsertOf now input rows
