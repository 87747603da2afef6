-- ===== src/Store/Newest/Laws.antt =====
-- What a statement that orders by time gives.
use mathlib.Core.List.{Memᴰ}
use openwrapper.Prelude.{
  ℕ, zero, suc, ◌≤◌, ◌≡◌, refl, Bool, true, List, [], ◌∷◌, arith, leb, length, keep, take, drop,
  All, inl, inr, Bool-cases,
}
use openwrapper.Store.Newest.{insert_newest, newest_first, select_newest}

module _ {Row : Type 0} (created_at : Row → ℕ) where
  -- Each row is at least as new as the next.
  abbrev pub IsNewestFirst : List Row → Type 0
  IsNewestFirst [] = Unit
  IsNewestFirst (r ∷ rows) = All (λ s. created_at s ≤ created_at r) rows × IsNewestFirst rows

  module _ (p : Row → Bool) where
    abbrev AllPass : List Row → Type 0
    AllPass rows = All (λ r. p r ≡ true) rows

    keep-AllPass : (rows : List Row) → AllPass (keep p rows)
    unfolding keep
    keep-AllPass [] = tt
    keep-AllPass (r ∷ rows) = elim (Bool-cases (p r)) [
      | inl yes_r ↦ rw yes_r (yes_r, keep-AllPass rows)
      | inr no_r ↦ rw no_r (keep-AllPass rows)
    ]

  All-insert_newest :
      (P : Row → Type 0) (r : Row) (rows : List Row)
      → P r
      → All P rows
      → All P (insert_newest created_at r rows)
  unfolding insert_newest
  All-insert_newest P r [] h k = (h, tt)
  All-insert_newest P r (s ∷ rows) h (k, ks) =
      elim (Bool-cases (leb (created_at s) (created_at r))) [
        | inl older ↦ rw older (h, (k, ks))
        | inr newer ↦ rw newer (k, All-insert_newest P r rows h ks)
      ]

  All-newest_first :
      (P : Row → Type 0) (rows : List Row) → All P rows → All P (newest_first created_at rows)
  unfolding newest_first
  All-newest_first P [] h = tt
  All-newest_first P (r ∷ rows) (h, hs) =
      All-insert_newest P r (newest_first created_at rows) h (All-newest_first P rows hs)

  All-older :
      (r s : Row) (rows : List Row)
      → (created_at s) ≤ (created_at r)
      → All (λ t. created_at t ≤ created_at s) rows
      → All (λ t. created_at t ≤ created_at r) rows
  All-older r s [] h k = tt
  All-older r s (t ∷ rows) h (k, ks) = (omega arith, All-older r s rows h ks)

  insert_newest-IsNewestFirst :
      (r : Row) (rows : List Row)
      → IsNewestFirst rows
      → IsNewestFirst (insert_newest created_at r rows)
  unfolding insert_newest
  insert_newest-IsNewestFirst r [] h = (tt, tt)
  insert_newest-IsNewestFirst r (s ∷ rows) (h, hs) =
      elim (Bool-cases (leb (created_at s) (created_at r))) [
        | inl older ↦
            let le : (created_at s) ≤ (created_at r) = ground arith in
            rw older ((le, All-older r s rows le h), (h, hs))
        | inr newer ↦ rw newer (
          All-insert_newest (λ t. created_at t ≤ created_at s) r rows (ground arith) h,
          insert_newest-IsNewestFirst r rows hs,
        )
      ]

  newest_first-IsNewestFirst : (rows : List Row) → IsNewestFirst (newest_first created_at rows)
  unfolding newest_first
  newest_first-IsNewestFirst [] = tt
  newest_first-IsNewestFirst (r ∷ rows) =
      insert_newest-IsNewestFirst r (newest_first created_at rows) (newest_first-IsNewestFirst rows)

  All-take : (P : Row → Type 0) (n : ℕ) (rows : List Row) → All P rows → All P (take n rows)
  All-take P zero rows h = tt
  All-take P (suc n) [] h = tt
  All-take P (suc n) (r ∷ rows) (h, hs) = (h, All-take P n rows hs)

  take-IsNewestFirst : (n : ℕ) (rows : List Row) → IsNewestFirst rows → IsNewestFirst (take n rows)
  take-IsNewestFirst zero rows h = tt
  take-IsNewestFirst (suc n) [] h = tt
  take-IsNewestFirst (suc n) (r ∷ rows) (h, hs) =
      (All-take _ n rows h, take-IsNewestFirst n rows hs)

  length-take_le : (n : ℕ) (rows : List Row) → length (take n rows) ≤ n
  length-take_le zero rows = omega arith
  length-take_le (suc n) [] = omega arith
  length-take_le (suc n) (r ∷ rows) = omega (arith, length-take_le n rows)

  All-drop : (P : Row → Type 0) (n : ℕ) (rows : List Row) → All P rows → All P (drop n rows)
  All-drop P zero rows h = h
  All-drop P (suc n) [] h = tt
  All-drop P (suc n) (r ∷ rows) (h, hs) = All-drop P n rows hs

  drop-IsNewestFirst : (n : ℕ) (rows : List Row) → IsNewestFirst rows → IsNewestFirst (drop n rows)
  drop-IsNewestFirst zero rows h = h
  drop-IsNewestFirst (suc n) [] h = tt
  drop-IsNewestFirst (suc n) (r ∷ rows) (h, hs) = drop-IsNewestFirst n rows hs

  -- The same of a later page.
  pub page_newest_sound :
      (p : Row → Bool) (limit offset : ℕ) (rows : List Row)
      → (length (take limit (drop offset (newest_first created_at (keep p rows)))) ≤ limit)
        × All (λ r. p r ≡ true) (take limit (drop offset (newest_first created_at (keep p rows))))
        × IsNewestFirst (take limit (drop offset (newest_first created_at (keep p rows))))
  page_newest_sound p limit offset rows =
      let sorted = newest_first created_at (keep p rows) in
      (
        length-take_le limit (drop offset sorted),
        All-take _ limit (drop offset sorted)
            (All-drop _ offset sorted (All-newest_first _ (keep p rows) (keep-AllPass p rows))),
        take-IsNewestFirst limit (drop offset sorted)
            (drop-IsNewestFirst offset sorted (newest_first-IsNewestFirst (keep p rows))),
      )

  -- The list has at most as many payments as the limit says, all of them pass the filter, and they stand
  -- with the newest first.
  pub select_newest_sound :
      (p : Row → Bool) (limit : ℕ) (rows : List Row)
      → (length (select_newest created_at p limit rows) ≤ limit)
        × All (λ r. p r ≡ true) (select_newest created_at p limit rows)
        × IsNewestFirst (select_newest created_at p limit rows)
  unfolding select_newest
  select_newest_sound p limit rows = (
    length-take_le limit (newest_first created_at (keep p rows)),
    All-take _ limit (newest_first created_at (keep p rows))
        (All-newest_first _ (keep p rows) (keep-AllPass p rows)),
    take-IsNewestFirst limit (newest_first created_at (keep p rows))
        (newest_first-IsNewestFirst (keep p rows)),
  )

  keep-Memᴰ :
      (p : Row → Bool) (rows all : List Row)
      → ((r : Row) → Memᴰ r rows → Memᴰ r all)
      → All (λ r. Memᴰ r all) (keep p rows)
  unfolding keep
  keep-Memᴰ p [] all within = tt
  keep-Memᴰ p (r ∷ rows) all within =
      let rest = keep-Memᴰ p rows all (λ s m. within s (Memᴰ.tail m)) in
      elim (Bool-cases (p r)) [
        | inl yes_r ↦ rw yes_r (within r (Memᴰ.head refl), rest)
        | inr no_r ↦ rw no_r rest
      ]

  -- The list has only rows of the table.
  pub select_newest-Memᴰ :
      (p : Row → Bool) (limit : ℕ) (rows : List Row)
      → All (λ r. Memᴰ r rows) (select_newest created_at p limit rows)
  unfolding select_newest
  select_newest-Memᴰ p limit rows =
      All-take _ limit (newest_first created_at (keep p rows))
        (All-newest_first _ (keep p rows) (keep-Memᴰ p rows rows (λ r m. m)))
