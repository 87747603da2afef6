-- ===== src/Store/Laws.antt =====
-- What the statements leave alone, and that a choice of the first match meets the laws of `Sql`.
use mathlib.Core.List.{Memᴰ}
use openwrapper.Prelude.{
  ◌≡◌, refl, inl, inr, Bool, true, false, none, some, List, [], ◌∷◌, map, arith, All, Bool-cases,
}
use openwrapper.Store.{Sql, update_where, first_match}

pub first_match_sound :
    {Row : Type 0} (p : Row → Bool) (rows : List Row) (r : Row)
    → first_match p rows ≡ some r
    → Memᴰ r rows × (p r ≡ true)
unfolding first_match
first_match_sound p [] r h = cc
first_match_sound p (x ∷ rows) r h = elim (Bool-cases (p x)) [
  | inl yes_x ↦ let same : x ≡ r = ground arith in (Memᴰ.head (cc), rw (← same) yes_x)
  | inr no_x ↦ let (m, q) = first_match_sound p rows r (ground arith) in (Memᴰ.tail m, q)
]

pub first_match-none :
    {Row : Type 0} (p : Row → Bool) (rows : List Row)
    → first_match p rows ≡ none
    → All (λ r. p r ≡ false) rows
unfolding first_match
first_match-none p [] h = tt
first_match-none p (x ∷ rows) h = ground (arith, first_match-none p rows)

-- A database that always gives the first row.
abbrev pub first_sql : Sql
first_sql = record {
  select_one = λ p rows. first_match p rows;
  select_one_sound = first_match_sound;
  select_one_none = first_match-none;
}

module _ {ℓ} {Row : Type ℓ} where
  -- What an update does not read or write is the same in every row, whatever the rows are.
  pub map-update_where :
      {A : Type 0} (g : Row → A) (p : Row → Bool) (f : Row → Row) (rows : List Row)
      → ((r : Row) → g (f r) ≡ g r)
      → map g (update_where p f rows) ≡ map g rows
  unfolding update_where
  map-update_where g p f [] h = refl
  map-update_where g p f (r ∷ rows) h = ground (arith, h r, map-update_where g p f rows h)
