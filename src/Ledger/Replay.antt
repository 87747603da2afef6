-- ===== src/Ledger/Replay.antt =====
-- The lookup by idempotency key after `persistPaymentRecord` has stored a new payment
-- (apps/web/lib/payment-ledger-service.ts).
use mathlib.Core.List.{Memᴰ}
use openwrapper.Prelude.{
  ◌≡◌, refl, ◌∙◌, ap, inl, inr, Bool, true, false, Option, none, some, List, [], ◌∷◌, ◌++◌, arith,
  All, ℕ, Option-cases,
}
use openwrapper.Js.Text.{===_iff, Text, ===_refl}
use openwrapper.Store.{Mode, mode_text, PaymentRow, Sql, upsert, upsert_returning}
use openwrapper.Ledger.Idempotency.{
  absent, found, has_key, has_user_key, global, check_owner, first_found, find_idempotent_payment,
}
use openwrapper.Ledger.Persist.{
  PersistPaymentInput, new_row, set_row, has_id, persist_payment_record,
}

-- No row has the id.
abbrev pub IsFresh : Text → List PaymentRow → Type 0
IsFresh id rows = All (λ r. has_id id r ≡ false) rows

module _ (id : Text) (set : PaymentRow → PaymentRow) (new : PaymentRow) where
  upsert-fresh :
      (rows : List PaymentRow)
      → IsFresh id rows
      → upsert (has_id id) set new rows ≡ rows ++ new ∷ []
  unfolding upsert
  upsert-fresh [] h = refl
  upsert-fresh (r ∷ rows) (other, h) = rw (other, upsert-fresh rows h) refl

  upsert_returning-fresh :
      (rows : List PaymentRow) → IsFresh id rows → upsert_returning (has_id id) set new rows ≡ new
  unfolding upsert_returning
  upsert_returning-fresh [] h = refl
  upsert_returning-fresh (r ∷ rows) (other, h) = rw (other, upsert_returning-fresh rows h) refl

module _ (id : Text) (set : PaymentRow → PaymentRow) (new row : PaymentRow)
    (same : has_id id row ≡ true) where
  upsert-last :
      (rows : List PaymentRow)
      → IsFresh id rows
      → upsert (has_id id) set new (rows ++ row ∷ []) ≡ rows ++ set row ∷ []
  unfolding upsert
  upsert-last [] h = rw same refl
  upsert-last (r ∷ rows) (other, h) = rw (other, upsert-last rows h) refl

  upsert_returning-last :
      (rows : List PaymentRow)
      → IsFresh id rows
      → upsert_returning (has_id id) set new (rows ++ row ∷ []) ≡ set row
  unfolding upsert_returning
  upsert_returning-last [] h = rw same refl
  upsert_returning-last (r ∷ rows) (other, h) = rw (other, upsert_returning-last rows h) refl

-- Persisting the last payment once more updates it in place.
pub persist_payment_record-last :
    (now : ℕ) (input : PersistPaymentInput) (rows : List PaymentRow) (row : PaymentRow)
    → row.id ≡ input.id
    → IsFresh input.id rows
    → persist_payment_record false now input (rows ++ row ∷ [])
      ≡ (some (set_row input now row), rows ++ set_row input now row ∷ [])
unfolding persist_payment_record
persist_payment_record-last now input rows row e h =
    let same = (===_iff row.id input.id).1 e in
    rw
      (
        upsert-last input.id (set_row input now) (new_row input now) row same rows h,
        upsert_returning-last input.id (set_row input now) (new_row input now) row same rows h,
      )
      refl

-- A new payment is added behind the others, and given back.
pub persist_payment_record-fresh :
    (now : ℕ) (input : PersistPaymentInput) (rows : List PaymentRow)
    → IsFresh input.id rows
    → persist_payment_record false now input rows
      ≡ (some (new_row input now), rows ++ new_row input now ∷ [])
unfolding persist_payment_record
persist_payment_record-fresh now input rows h =
    rw
      (
        upsert-fresh input.id (set_row input now) (new_row input now) rows h,
        upsert_returning-fresh input.id (set_row input now) (new_row input now) rows h,
      )
      refl

module _ (p : PaymentRow → Bool) (new : PaymentRow) where
  only_match :
      (rows : List PaymentRow) (r : PaymentRow)
      → All (λ x. p x ≡ false) rows
      → Memᴰ r (rows ++ new ∷ [])
      → p r ≡ true
      → r ≡ new
  only_match [] r h (Memᴰ.head e) t = e
  only_match [] r h (Memᴰ.tail m) t = elim m [ ]
  only_match (x ∷ rows) r (out, h) (Memᴰ.head e) t = let same : p r ≡ p x = ap p e in cc
  only_match (x ∷ rows) r (out, h) (Memᴰ.tail m) t = only_match rows r h m t

  last_refused :
      (rows : List PaymentRow) → All (λ x. p x ≡ false) (rows ++ new ∷ []) → p new ≡ false
  last_refused [] (out, h) = out
  last_refused (x ∷ rows) (out, h) = last_refused rows h

  -- A lookup that only the last row matches gives it.
  select_one-last :
      (sql : Sql) (rows : List PaymentRow)
      → All (λ x. p x ≡ false) rows
      → p new ≡ true
      → sql.select_one p (rows ++ new ∷ []) ≡ some new
  select_one-last sql rows h t = elim (Option-cases (sql.select_one p (rows ++ new ∷ []))) [
    | inl e ↦ let refused = last_refused rows (sql.select_one_none p _ e) in cc
    | inr (r, e) ↦
        let (m, q) = sql.select_one_sound p _ r e in e ∙ ap some (only_match rows r h m q)
  ]

check_owner-absent :
    (sql : Sql) (user key : Text) (mode : Mode) (rows : List PaymentRow) (g : Option PaymentRow)
    → check_owner sql user key mode rows g ≡ absent
    → g ≡ none
unfolding check_owner
check_owner-absent sql user key mode rows none h = refl
check_owner-absent sql user key mode rows (some r) h = ground arith

first_found-absent :
    (sql : Sql) (user key : Text) (mode : Mode) (rows : List PaymentRow) (u : Option PaymentRow)
    → first_found sql user key mode rows u ≡ absent
    → global sql user key mode rows ≡ none
unfolding first_found
first_found-absent sql user key mode rows none h =
    check_owner-absent sql user key mode rows (global sql user key mode rows) h
first_found-absent sql user key mode rows (some r) h = cc

-- Where the lookup finds nothing, no row has the key in that environment.
pub find_idempotent_payment-absent :
    (sql : Sql) (user key : Text) (mode : Mode) (rows : List PaymentRow)
    → find_idempotent_payment sql user key mode rows false ≡ absent
    → All (λ r. has_key key mode r ≡ false) rows
unfolding find_idempotent_payment
find_idempotent_payment-absent sql user key mode rows h =
    sql.select_one_none (has_key key mode) rows (first_found-absent sql user key mode rows _ h)

without_user :
    (user key : Text) (mode : Mode) (rows : List PaymentRow)
    → All (λ r. has_key key mode r ≡ false) rows
    → All (λ r. has_user_key user key mode r ≡ false) rows
without_user user key mode [] h = tt
without_user user key mode (r ∷ rows) (out, h) = (ground arith, without_user user key mode rows h)

-- A row behind rows without the key is the one that the lookup finds.
pub find_idempotent_payment-last :
    (sql : Sql) (user key : Text) (mode : Mode) (rows : List PaymentRow) (new : PaymentRow)
    → All (λ r. has_key key mode r ≡ false) rows
    → has_user_key user key mode new ≡ true
    → find_idempotent_payment sql user key mode (rows ++ new ∷ []) false ≡ found new
unfolding find_idempotent_payment first_found
find_idempotent_payment-last sql user key mode rows new h t =
    rw
      (select_one-last (has_user_key user key mode) new sql rows (without_user user key mode rows h)
        t)
      refl

pub new_row-has_user_key :
    (now : ℕ) (input : PersistPaymentInput) (mode : Mode)
    → input.environment ≡ some mode
    → has_user_key input.user_id input.idempotency_key mode (new_row input now) ≡ true
new_row-has_user_key now input mode e =
    rw (e, ===_refl input.user_id, ===_refl input.idempotency_key, ===_refl (mode_text mode)) refl

-- After a payment with an unused key and a fresh id is persisted, the lookup by that key finds it, for
-- its owner and in its environment, whichever rows the database prefers.
pub find_idempotent_payment-persist_payment_record :
    (sql : Sql) (now : ℕ) (input : PersistPaymentInput) (mode : Mode) (rows : List PaymentRow)
    → input.environment ≡ some mode
    → IsFresh input.id rows
    → find_idempotent_payment sql input.user_id input.idempotency_key mode rows false ≡ absent
    → find_idempotent_payment sql input.user_id input.idempotency_key mode
        (persist_payment_record false now input rows).1
        false
      ≡ found (new_row input now)
find_idempotent_payment-persist_payment_record sql now input mode rows e fresh h =
    rw (persist_payment_record-fresh now input rows fresh) (
      find_idempotent_payment-last sql input.user_id input.idempotency_key mode rows
        (new_row input now)
        (find_idempotent_payment-absent sql input.user_id input.idempotency_key mode rows h)
        (new_row-has_user_key now input mode e))
