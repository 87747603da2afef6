-- ===== src/Dashboard/Groups.antt =====
-- The aggregates of SQL that apps/web/lib/dashboard-telemetry-service.ts uses, and the `Map` that it makes
-- of the groups.
use openwrapper.Prelude.{
  subst, ℕ, ◌+◌, ◌≡◌, refl, Bool, true, false, Option, none, some, List, [], ◌∷◌, map, arith, keep,
  any, length, if◌then◌else◌, Bool-cases, inl, inr, ◌↔◌,
}

module _ {Row : Type 0} where
  -- `count(*) filter (where p)`
  abbrev pub count_if : (Row → Bool) → List Row → ℕ
  count_if p rows = length (keep p rows)

  -- `coalesce(sum(f), 0)`
  unfoldable pub sum_of : (Row → ℕ) → List Row → ℕ
  sum_of f [] = 0
  sum_of f (r ∷ rows) = f r + sum_of f rows

  -- A filter below a weaker one.
  pub keep-keep :
      (p q : Row → Bool) (rows : List Row)
      → ((r : Row) → p r ≡ true → q r ≡ true)
      → keep p (keep q rows) ≡ keep p rows
  unfolding keep
  keep-keep p q [] h = refl
  keep-keep p q (r ∷ rows) h = ground (arith, h r, keep-keep p q rows h)

module _ {K : Type 0} (eq : K → K → Bool) where
  unfoldable pub distinct : List K → List K
  unfolding any
  distinct [] = []
  distinct (k ∷ ks) = if any (λ j. eq j k) ks then distinct ks else k ∷ distinct ks

  -- `map.get(key)` behind a `map.set` for each row.
  unfoldable pub get_group : {V : Type 0} → K → List (K × V) → Option V
  get_group k [] = none
  get_group k ((j, v) ∷ groups) = if eq j k then some v else get_group k groups

  -- `SELECT key, agg … GROUP BY key`
  unfoldable pub group_by : {Row V : Type 0} → (Row → K) → (List Row → V) → List Row → List (K × V)
  unfolding distinct keep
  group_by key agg rows =
      map (λ k. (k, agg (keep (λ r. eq (key r) k) rows))) (distinct (map key rows))

module _ {K : Type 0} (eq : K → K → Bool) (eq_iff : (a b : K) → (eq a b ≡ true) ↔ (a ≡ b)) where
  get_group-map :
      {V : Type 0} (f : K → V) (k : K) (ks : List K)
      → get_group eq k (map (λ j. (j, f j)) ks)
        ≡ (if any (λ j. eq j k) ks then some (f k) else none)
  unfolding get_group any
  get_group-map f k [] = refl
  get_group-map f k (j ∷ ks) = elim (Bool-cases (eq j k)) [
    | inl same ↦ rw (same, (eq_iff j k).0 same) refl
    | inr other ↦ rw (other, get_group-map f k ks) refl
  ]

  any-distinct : (k : K) (ks : List K) → any (λ j. eq j k) (distinct eq ks) ≡ any (λ j. eq j k) ks
  unfolding any distinct
  any-distinct k [] = refl
  any-distinct k (j ∷ ks) = elim (Bool-cases (any (λ i. eq i j) ks)) [
    | inr fresh ↦ rw (fresh, any-distinct k ks) refl
    | inl seen ↦
        rw (seen, any-distinct k ks)
          (elim (Bool-cases (eq j k)) [
            | inl same ↦
                let again : any (λ i. eq i k) ks ≡ true =
                  subst (λ x. any (λ i. eq i x) ks ≡ true) ((eq_iff j k).0 same) seen in
                rw (same, again) refl
            | inr other ↦ rw other refl
          ])
  ]

  keep-none :
      {Row : Type 0} (key : Row → K) (k : K) (rows : List Row)
      → any (λ j. eq j k) (map key rows) ≡ false
      → keep (λ r. eq (key r) k) rows ≡ []
  unfolding any keep
  keep-none key k [] h = refl
  keep-none key k (r ∷ rows) h = ground (arith, keep-none key k rows)

  -- The group of a key is the aggregate of its rows; a key without rows has no group.
  pub get_group-group_by :
      {Row V : Type 0} (key : Row → K) (agg : List Row → V) (k : K) (rows : List Row)
      → get_group eq k (group_by eq key agg rows) ≡ (
          if any (λ j. eq j k) (map key rows)
          then some (agg (keep (λ r. eq (key r) k) rows))
          else none)
  unfolding group_by
  get_group-group_by key agg k rows =
      rw
        (
          get_group-map (λ j. agg (keep (λ r. eq (key r) j) rows)) k (distinct eq (map key rows)),
          any-distinct k (map key rows),
        )
        refl
