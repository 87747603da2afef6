-- ===== src/Ledger/Idempotency.antt =====
-- `findIdempotentPayment` of apps/web/lib/payment-ledger-service.ts. `fails` says that the database
-- throws at one of the two statements.
use mathlib.Core.List.{Memᴰ}
use openwrapper.Prelude.{
  ◌≡◌, refl, sym, ◌∙◌, ap, ◌⊎◌, inl, inr, Bool, true, false, not, ◌&&◌, Option, none, some, List,
  arith, Bool-cases, if◌then◌else◌,
}
use openwrapper.Js.Text.{Text, ◌===◌, ===_iff, present, is_text}
use openwrapper.Store.{Mode, mode_text, PaymentRow, Sql, column_is}
use openwrapper.Access.Authenticator.{sandbox_user}

pub data Lookup : Type 0 where
  absent : Lookup
  found : PaymentRow → Lookup
  cross_tenant : Lookup
  failed : Lookup

-- The key in one environment, whoever owns it.
abbrev pub has_key : Text → Mode → PaymentRow → Bool
has_key key mode r = r.idempotency_key === key && r.environment === mode_text mode

abbrev pub has_user_key : Text → Text → Mode → PaymentRow → Bool
has_user_key user key mode r = column_is r.user_id user && has_key key mode r

-- `global.userId && global.userId !== userId`
abbrev pub owned_by_other : Text → PaymentRow → Bool
owned_by_other user r = present r.user_id && not (is_text r.user_id user)

module _ (sql : Sql) (user key : Text) (mode : Mode) (rows : List PaymentRow) where
  abbrev pub by_user : Option PaymentRow
  by_user = sql.select_one (has_user_key user key mode) rows

  abbrev pub global : Option PaymentRow
  global = sql.select_one (has_key key mode) rows

  unfoldable pub check_owner : Option PaymentRow → Lookup
  check_owner none = absent
  check_owner (some r) = if owned_by_other user r then cross_tenant else found r

  unfoldable pub first_found : Option PaymentRow → Lookup
  unfolding check_owner
  first_found none = check_owner global
  first_found (some r) = found r

  unfoldable pub find_idempotent_payment : Bool → Lookup
  unfolding first_found
  find_idempotent_payment true = if user === sandbox_user then absent else failed
  find_idempotent_payment false = first_found by_user

pub column_is_sound : (o : Option Text) (s : Text) → column_is o s ≡ true → o ≡ some s
column_is_sound none s h = cc
column_is_sound (some t) s h = ground (arith, ===_iff t s)

has_key_sound :
    (key : Text) (mode : Mode) (r : PaymentRow)
    → has_key key mode r ≡ true
    → (r.idempotency_key ≡ key) × (r.environment ≡ mode_text mode)
has_key_sound key mode r h =
    ground (arith, ===_iff r.idempotency_key key, ===_iff r.environment (mode_text mode))

owner_sound :
    (user : Text) (o : Option Text)
    → (present o && not (is_text o user)) ≡ false
    → (o ≡ some user) ⊎ (present o ≡ false)
owner_sound user none h = inr refl
owner_sound user (some s) h = ground (arith, ===_iff s user)

module _ (sql : Sql) (user key : Text) (mode : Mode) (rows : List PaymentRow) (r : PaymentRow) where
  abbrev IsFound : Type 0
  IsFound =
      Memᴰ r rows
      × (r.idempotency_key ≡ key)
      × (r.environment ≡ mode_text mode)
      × ((r.user_id ≡ some user) ⊎ (present r.user_id ≡ false))

  by_user_sound : by_user sql user key mode rows ≡ some r → IsFound
  by_user_sound e =
      let (m, t) = sql.select_one_sound _ rows r e in
      let (same_key, same_env) = has_key_sound key mode r (ground arith) in
      (m, same_key, same_env, inl (column_is_sound r.user_id user (ground arith)))

  global_sound : global sql user key mode rows ≡ some r → owned_by_other user r ≡ false → IsFound
  global_sound e o =
      let (m, t) = sql.select_one_sound _ rows r e in
      let (same_key, same_env) = has_key_sound key mode r t in
      (m, same_key, same_env, owner_sound user r.user_id o)

  check_owner_sound :
      (g : Option PaymentRow)
      → g ≡ global sql user key mode rows
      → check_owner sql user key mode rows g ≡ found r
      → IsFound
  unfolding check_owner
  check_owner_sound none e h = cc
  check_owner_sound (some g) e h = elim (Bool-cases (owned_by_other user g)) [
    | inl other ↦ ground arith
    | inr mine ↦
        let same : g ≡ r = ground arith in global_sound (sym e ∙ ap some same) (rw same at mine)
  ]

  first_found_sound :
      (u : Option PaymentRow)
      → u ≡ by_user sql user key mode rows
      → first_found sql user key mode rows u ≡ found r
      → IsFound
  unfolding first_found
  first_found_sound none e h = check_owner_sound (global sql user key mode rows) refl h
  first_found_sound (some g) e h = by_user_sound (sym e ∙ ap some (let same : g ≡ r = cc in same))

-- A row that the lookup finds is in the table, carries the key and the environment that were asked
-- for, and belongs to the caller or to nobody (a null or an empty user id).
pub find_idempotent_payment_owner :
    (sql : Sql) (user key : Text) (mode : Mode) (rows : List PaymentRow) (fails : Bool)
    (r : PaymentRow)
    → find_idempotent_payment sql user key mode rows fails ≡ found r
    → Memᴰ r rows
      × (r.idempotency_key ≡ key)
      × (r.environment ≡ mode_text mode)
      × ((r.user_id ≡ some user) ⊎ (present r.user_id ≡ false))
unfolding find_idempotent_payment
find_idempotent_payment_owner sql user key mode rows true r h = ground arith
find_idempotent_payment_owner sql user key mode rows false r h =
    first_found_sound sql user key mode rows r (by_user sql user key mode rows) refl h
