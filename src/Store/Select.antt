-- ===== src/Store/Select.antt =====
-- What a SELECT finds and a DELETE leaves, by the rows that match.
use mathlib.Core.List.{Memᴰ}
use mathlib.Core.List.Memᴰ
use openwrapper.Prelude.{
  ◌≡◌, refl, sym, ◌∙◌, ap, subst, Bool, true, false, none, some, List, [], ◌∷◌, ◌++◌, All,
  Bool-cases, Option-cases, inl, inr,
}
use openwrapper.Store.{Sql, delete_where, update_where}

pub All-Memᴰ :
    {Row : Type 0} (P : Row → Type 0) (rows : List Row) (r : Row) → All P rows → Memᴰ r rows → P r
All-Memᴰ P [] r h m = elim m [ ]
All-Memᴰ P (x ∷ rows) r (p, h) (Memᴰ.head e) = subst P (sym e) p
All-Memᴰ P (x ∷ rows) r (p, h) (Memᴰ.tail m) = All-Memᴰ P rows r h m

module _ (sql : Sql) {Row : Type 0} (p : Row → Bool) where
  pub select_one-none_of :
      (rows : List Row) → All (λ r. p r ≡ false) rows → sql.select_one p rows ≡ none
  select_one-none_of rows h = elim (Option-cases (sql.select_one p rows)) [
    | inl missing ↦ missing
    | inr (r, found) ↦
        let (m, t) = sql.select_one_sound p rows r found in
        let f : p r ≡ false = All-Memᴰ (λ x. p x ≡ false) rows r h m in cc
  ]

  pass_only_last :
      (rows : List Row) (row : Row)
      → All (λ r. p r ≡ false) rows
      → All (λ r. p r ≡ true → r ≡ row) (rows ++ row ∷ [])
  pass_only_last [] row h = (λ _. refl, tt)
  pass_only_last (x ∷ rows) row (f, h) = (λ t. cc, pass_only_last rows row h)

  -- The only row that matches is the one that is found.
  pub select_one-last :
      (rows : List Row) (row : Row)
      → All (λ r. p r ≡ false) rows
      → p row ≡ true
      → sql.select_one p (rows ++ row ∷ []) ≡ some row
  select_one-last rows row h t = elim (Option-cases (sql.select_one p (rows ++ row ∷ []))) [
    | inl missing ↦
        let f : p row ≡ false =
          All-Memᴰ (λ x. p x ≡ false) (rows ++ row ∷ []) row
            (sql.select_one_none p (rows ++ row ∷ []) missing)
            (Memᴰ.append_right rows (Memᴰ.head refl)) in
        cc
    | inr (r, found) ↦
        let (m, pass) = sql.select_one_sound p (rows ++ row ∷ []) r found in
        found ∙ ap some (All-Memᴰ _ (rows ++ row ∷ []) r (pass_only_last rows row h) m pass)
  ]

-- A row that is updated is there in its new form.
pub update_where-Memᴰ :
    {Row : Type 0} (p : Row → Bool) (f : Row → Row) (rows : List Row) (q : Row)
    → p q ≡ true
    → Memᴰ q rows
    → Memᴰ (f q) (update_where p f rows)
unfolding update_where
update_where-Memᴰ p f [] q h m = elim m [ ]
update_where-Memᴰ p f (x ∷ rows) q h (Memᴰ.head e) =
    let t : p x ≡ true = ap p (sym e) ∙ h in Memᴰ.head (rw (t, e) refl)
update_where-Memᴰ p f (x ∷ rows) q h (Memᴰ.tail m) = Memᴰ.tail (update_where-Memᴰ p f rows q h m)

pub All-delete_where :
    {Row : Type 0} (P : Row → Type 0) (p : Row → Bool) (rows : List Row)
    → All P rows
    → All P (delete_where p rows)
unfolding delete_where
All-delete_where P p [] h = tt
All-delete_where P p (r ∷ rows) (q, h) = elim (Bool-cases (p r)) [
  | inl gone ↦ rw gone (All-delete_where P p rows h)
  | inr kept ↦ rw kept (q, All-delete_where P p rows h)
]

pub delete_where-last :
    {Row : Type 0} (P : Row → Type 0) (p : Row → Bool) (rows : List Row) (row : Row)
    → p row ≡ true
    → All P rows
    → All P (delete_where p (rows ++ row ∷ []))
unfolding delete_where
delete_where-last P p [] row t h = rw t tt
delete_where-last P p (r ∷ rows) row t (q, h) = elim (Bool-cases (p r)) [
  | inl gone ↦ rw gone (delete_where-last P p rows row t h)
  | inr kept ↦ rw kept (q, delete_where-last P p rows row t h)
]
