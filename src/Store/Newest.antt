-- ===== src/Store/Newest.antt =====
-- `SELECT … WHERE p ORDER BY created_at DESC LIMIT n`: of rows with one time of creation the database may
-- give any order, and here keeps that of the table.
pub mod Laws
use openwrapper.Prelude.{ℕ, Bool, List, [], ◌∷◌, leb, if◌then◌else◌, keep, take}

module _ {Row : Type 0} (created_at : Row → ℕ) where
  unfoldable pub insert_newest : Row → List Row → List Row
  insert_newest r [] = r ∷ []
  insert_newest r (s ∷ rows) =
      if leb (created_at s) (created_at r) then r ∷ s ∷ rows else s ∷ insert_newest r rows

  unfoldable pub newest_first : List Row → List Row
  unfolding insert_newest
  newest_first [] = []
  newest_first (r ∷ rows) = insert_newest r (newest_first rows)

  -- The statement as a whole.
  unfoldable pub select_newest : (Row → Bool) → ℕ → List Row → List Row
  unfolding newest_first keep
  select_newest p limit rows = take limit (newest_first (keep p rows))
