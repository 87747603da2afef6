-- ===== src/Ledger/Terminal.antt =====
-- What "a payment that has ended stays as it ended" says of two states of the payments table.
use mathlib.Core.List.{Memᴰ}
use openwrapper.Prelude.{
  ◌≡◌, ◌≢◌, inl, inr, refl, sym, ap, ◌∙◌, Bool, true, false, Option-cases, some, List, [], ◌∷◌,
  arith, All, Bool-cases, subst,
}
use openwrapper.Js.Text.{Text, ◌===◌, ===_iff, ===_refl}
use openwrapper.Store.{PaymentRow, update_where, Sql}
use openwrapper.Store.Select.{All-Memᴰ}
use openwrapper.Ledger.Status.{is_terminal}
use openwrapper.Ledger.Persist.{has_id}

-- Row by row, the id is kept, and so is the status if it is "succeeded" or "failed". Rows may have
-- been added at the end.
abbrev pub Keeps : List PaymentRow → List PaymentRow → Type 0
Keeps [] _ = Unit
Keeps (r ∷ rs) [] = ⊥
Keeps (r ∷ rs) (r' ∷ rs') =
    (r'.id ≡ r.id) × (is_terminal r.status ≡ true → r'.status ≡ r.status) × Keeps rs rs'

pub Keeps-refl : (rows : List PaymentRow) → Keeps rows rows
Keeps-refl [] = tt
Keeps-refl (r ∷ rs) = (refl, λ _. refl, Keeps-refl rs)

pub Keeps-trans :
    (rows rows' rows'' : List PaymentRow)
    → Keeps rows rows'
    → Keeps rows' rows''
    → Keeps rows rows''
Keeps-trans [] rows' rows'' h k = tt
Keeps-trans (r ∷ rs) [] rows'' h k = absurd h
Keeps-trans (r ∷ rs) (r' ∷ rs') [] h k = absurd k
Keeps-trans (r ∷ rs) (r' ∷ rs') (r'' ∷ rs'') (i, t, h) (j, u, k) =
    (j ∙ i, λ e. u (ap is_terminal (t e) ∙ e) ∙ t e, Keeps-trans rs rs' rs'' h k)

-- No two texts of a list are equal.
abbrev pub Distinct : List Text → Type 0
Distinct [] = Unit
Distinct (s ∷ ss) = All (λ t. t ≢ s) ss × Distinct ss

abbrev pub ids : List PaymentRow → List Text
ids [] = []
ids (r ∷ rs) = r.id ∷ ids rs

-- The primary key of `payments`.
abbrev pub HasDistinctIds : List PaymentRow → Type 0
HasDistinctIds rows = Distinct (ids rows)

has_id-eq-false : (id : Text) (r : PaymentRow) → r.id ≢ id → has_id id r ≡ false
has_id-eq-false id r ne = elim (Bool-cases (r.id === id)) [
  | inl same ↦ absurd (ne ((===_iff r.id id).0 same))
  | inr other ↦ other
]

ids_mem :
    (P : Text → Type 0) {r : PaymentRow} (rows : List PaymentRow)
    → Memᴰ r rows
    → All P (ids rows)
    → P r.id
ids_mem P (x ∷ rows) (Memᴰ.head e) (p, _) = subst (λ (q : PaymentRow). P q.id) (sym e) p
ids_mem P (x ∷ rows) (Memᴰ.tail m) (_, h) = ids_mem P rows m h
ids_mem P [] m h = elim m [ ]

-- The id of a row names no other row.
pub HasDistinctIds-same :
    {r s : PaymentRow} (rows : List PaymentRow)
    → HasDistinctIds rows
    → Memᴰ r rows
    → Memᴰ s rows
    → r.id ≡ s.id
    → r ≡ s
HasDistinctIds-same [] d m n same = elim m [ ]
HasDistinctIds-same (x ∷ rows) d (Memᴰ.head e) (Memᴰ.head f) same = e ∙ sym f
HasDistinctIds-same (x ∷ rows) (ne, d) (Memᴰ.head e) (Memᴰ.tail n) same =
    absurd (ids_mem (λ t. t ≢ x.id) rows n ne (sym same ∙ ap (λ (q : PaymentRow). q.id) e))
HasDistinctIds-same (x ∷ rows) (ne, d) (Memᴰ.tail m) (Memᴰ.head f) same =
    absurd (ids_mem (λ t. t ≢ x.id) rows m ne (same ∙ ap (λ (q : PaymentRow). q.id) f))
HasDistinctIds-same (x ∷ rows) (ne, d) (Memᴰ.tail m) (Memᴰ.tail n) same =
    HasDistinctIds-same rows d m n same

-- The lookup by the primary key finds the row.
pub select_one-has_id :
    (sql : Sql) (row : PaymentRow) (rows : List PaymentRow)
    → HasDistinctIds rows
    → Memᴰ row rows
    → sql.select_one (has_id row.id) rows ≡ some row
select_one-has_id sql row rows d m = elim (Option-cases (sql.select_one (has_id row.id) rows)) [
  | inl missing ↦
      let other : has_id row.id row ≡ false =
        All-Memᴰ (λ q. has_id row.id q ≡ false) rows row
          (sql.select_one_none (has_id row.id) rows missing) m in
      let clash : true ≡ false = sym (===_refl row.id) ∙ other in cc
  | inr (q, found) ↦
      let (n, hit) = sql.select_one_sound (has_id row.id) rows q found in
      found ∙ ap some (HasDistinctIds-same rows d n m ((===_iff q.id row.id).0 hit))
]

module _ (set : PaymentRow → PaymentRow) (id : Text) where
  update_where_absent :
      (rows : List PaymentRow)
      → All (λ t. t ≢ id) (ids rows)
      → update_where (has_id id) set rows ≡ rows
  unfolding update_where
  update_where_absent [] h = refl
  update_where_absent (r ∷ rows) (ne, h) = rw (has_id-eq-false id r ne, update_where_absent rows h)

-- Updating the one row with the id of a row that has not ended, or to the status that it has, keeps
-- every payment that has ended.
pub update_where-Keeps :
    {r : PaymentRow} (set : PaymentRow → PaymentRow) (rows : List PaymentRow)
    → Memᴰ r rows
    → HasDistinctIds rows
    → ((x : PaymentRow) → (set x).id ≡ x.id)
    → (is_terminal r.status ≡ true → (set r).status ≡ r.status)
    → Keeps rows (update_where (has_id r.id) set rows)
unfolding update_where
update_where-Keeps set [] m d same_id t = elim m [ ]
update_where-Keeps {r} set (x ∷ rows) (Memᴰ.head e) (ne, d) same_id t =
    let keeps : Keeps (r ∷ rows) (update_where (has_id r.id) set (r ∷ rows)) =
      rw
        (
          ===_refl r.id,
          update_where_absent set r.id rows
              (subst (λ (q : PaymentRow). All (λ s. s ≢ q.id) (ids rows)) (sym e) ne),
        )
        (same_id r, t, Keeps-refl rows) in
    subst (λ (q : PaymentRow). Keeps (q ∷ rows) (update_where (has_id r.id) set (q ∷ rows))) e keeps
update_where-Keeps {r} set (x ∷ rows) (Memᴰ.tail m) (ne, d) same_id t =
    rw (has_id-eq-false r.id x (λ e. ids_mem (λ s. s ≢ x.id) rows m ne (sym e)))
      (refl, λ _. refl, update_where-Keeps set rows m d same_id t)

pub ids-update_where :
    (p : PaymentRow → Bool) (set : PaymentRow → PaymentRow) (rows : List PaymentRow)
    → ((x : PaymentRow) → (set x).id ≡ x.id)
    → ids (update_where p set rows) ≡ ids rows
unfolding update_where
ids-update_where p set [] h = refl
ids-update_where p set (r ∷ rows) h = ground (arith, h r, ids-update_where p set rows h)
