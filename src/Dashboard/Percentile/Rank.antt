-- ===== src/Dashboard/Percentile/Rank.antt =====
-- That `percentile` of apps/web/lib/dashboard-telemetry-service.ts is the nearest rank.
use openwrapper.Prelude.{
  subst, ℕ, zero, suc, ◌-◌, ◌*◌, ◌≤◌, ◌<◌, ◌≡◌, refl, Bool, some, List, [], ◌∷◌, leb, ltb, length,
  get_elem?, All, arith, Bool-cases, inl, inr, keep,
}
use Prim.Native.Nat.{min}
use openwrapper.Dashboard.Groups.{count_if}
use openwrapper.Dashboard.Percentile.{insert, sort, rank, percentile}

abbrev IsSorted : List ℕ → Type 0
IsSorted [] = Unit
IsSorted (a ∷ xs) = All (λ x. a ≤ x) xs × IsSorted xs

count-insert : (p : ℕ → Bool) (a : ℕ) (xs : List ℕ) → count_if p (insert a xs) ≡ count_if p (a ∷ xs)
unfolding insert keep
count-insert p a [] = refl
count-insert p a (b ∷ xs) = ground (arith, count-insert p a xs)

count-sort : (p : ℕ → Bool) (xs : List ℕ) → count_if p (sort xs) ≡ count_if p xs
unfolding sort keep
count-sort p [] = refl
count-sort p (a ∷ xs) = ground (arith, count-insert p a (sort xs), count-sort p xs)

length-insert : (a : ℕ) (xs : List ℕ) → length (insert a xs) ≡ suc (length xs)
unfolding insert
length-insert a [] = refl
length-insert a (b ∷ xs) = ground (arith, length-insert a xs)

length-sort : (xs : List ℕ) → length (sort xs) ≡ length xs
unfolding sort
length-sort [] = refl
length-sort (a ∷ xs) = ground (arith, length-insert a (sort xs), length-sort xs)

All-insert : (P : ℕ → Type 0) (a : ℕ) (xs : List ℕ) → P a → All P xs → All P (insert a xs)
unfolding insert
All-insert P a [] p h = (p, tt)
All-insert P a (b ∷ xs) p (q, h) = elim (Bool-cases (leb a b)) [
  | inl le ↦ rw le (p, (q, h))
  | inr gt ↦ rw gt (q, All-insert P a xs p h)
]

All-sort : (P : ℕ → Type 0) (xs : List ℕ) → All P xs → All P (sort xs)
unfolding sort
All-sort P [] h = tt
All-sort P (a ∷ xs) (p, h) = All-insert P a (sort xs) p (All-sort P xs h)

All-above : (a b : ℕ) (xs : List ℕ) → a ≤ b → All (λ x. b ≤ x) xs → All (λ x. a ≤ x) xs
All-above a b [] h k = tt
All-above a b (x ∷ xs) h (k, ks) = (omega arith, All-above a b xs h ks)

insert-IsSorted : (a : ℕ) (xs : List ℕ) → IsSorted xs → IsSorted (insert a xs)
unfolding insert
insert-IsSorted a [] h = (tt, tt)
insert-IsSorted a (b ∷ xs) (h, hs) = elim (Bool-cases (leb a b)) [
  | inl le ↦ rw le (((ground arith), All-above a b xs (ground arith) h), (h, hs))
  | inr gt ↦ rw gt (All-insert (λ x. b ≤ x) a xs (ground arith) h, insert-IsSorted a xs hs)
]

sort-IsSorted : (xs : List ℕ) → IsSorted (sort xs)
unfolding sort
sort-IsSorted [] = tt
sort-IsSorted (a ∷ xs) = insert-IsSorted a (sort xs) (sort-IsSorted xs)

get_elem?-All : (P : ℕ → Type 0) (xs : List ℕ) (i v : ℕ) → All P xs → get_elem? xs i ≡ some v → P v
get_elem?-All P [] i v h e = cc
get_elem?-All P (x ∷ xs) zero v (p, h) e = let same : x ≡ v = cc in subst P same p
get_elem?-All P (x ∷ xs) (suc i) v (p, h) e = get_elem?-All P xs i v h e

get_elem?-some : (xs : List ℕ) (i : ℕ) → i < length xs → (v : ℕ) × (get_elem? xs i ≡ some v)
get_elem?-some [] i h = absurd (omega arith)
get_elem?-some (x ∷ xs) zero h = (x, refl)
get_elem?-some (x ∷ xs) (suc i) h = get_elem?-some xs i (omega arith)

none_below : (a : ℕ) (xs : List ℕ) → All (λ x. a ≤ x) xs → count_if (λ x. ltb x a) xs ≡ 0
unfolding keep
none_below a [] h = refl
none_below a (x ∷ xs) (k, h) = ground (arith, none_below a xs h)

head_counts :
    (x : ℕ) (xs : List ℕ)
    → All (λ y. x ≤ y) xs
    → (0 < count_if (λ y. leb y x) (x ∷ xs)) × (count_if (λ y. ltb y x) (x ∷ xs) ≤ 0)
unfolding keep
head_counts x xs h = ground (arith, none_below x xs h)

-- The value at an index of a sorted list: more values than the index are at most that value, and at most
-- so many are below it.
elem_counts :
    (xs : List ℕ) (i v : ℕ)
    → IsSorted xs
    → get_elem? xs i ≡ some v
    → (i < count_if (λ x. leb x v) xs) × (count_if (λ x. ltb x v) xs ≤ i)
unfolding keep
elem_counts [] i v h e = cc
elem_counts (x ∷ xs) zero v (h, hs) e =
    let same : x ≡ v = cc in
    subst (λ y. (0 < count_if (λ z. leb z y) (x ∷ xs)) × (count_if (λ z. ltb z y) (x ∷ xs) ≤ 0))
      same (head_counts x xs h)
elem_counts (x ∷ xs) (suc i) v (h, hs) e =
    let le : x ≤ v = get_elem?-All (λ y. x ≤ y) xs i v h e in
    let (more, below) = elem_counts xs i v hs e in ground arith

elem_mono :
    (xs : List ℕ) (i j u v : ℕ)
    → IsSorted xs
    → i ≤ j
    → get_elem? xs i ≡ some u
    → get_elem? xs j ≡ some v
    → u ≤ v
elem_mono [] i j u v h le e f = cc
elem_mono (x ∷ xs) zero zero u v h le e f = let same : u ≡ v = cc in omega arith
elem_mono (x ∷ xs) zero (suc j) u v (h, hs) le e f =
    let same : x ≡ u = cc in rw (← same) (get_elem?-All (λ y. x ≤ y) xs j v h f)
elem_mono (x ∷ xs) (suc i) zero u v h le e f = absurd (omega arith)
elem_mono (x ∷ xs) (suc i) (suc j) u v (h, hs) le e f = elem_mono xs i j u v hs (omega arith) e f

rank_bounds : (n p : ℕ) → 0 < n → 0 < p → p ≤ 100 → (0 < rank n p) × (rank n p ≤ n)
rank_bounds n p hn hp h =
    let above : p * n ≤ 100 * n = grind arith in let below : 1 ≤ p * n = grind arith in omega arith

-- The index that the code reads, and that it is there.
percentile_index :
    (a : ℕ) (xs : List ℕ) (p : ℕ)
    → 0 < p
    → p ≤ 100
    → (get_elem? (sort (a ∷ xs)) (rank (length (a ∷ xs)) p - 1) ≡ some (percentile (a ∷ xs) p))
unfolding percentile
percentile_index a xs p hp h =
    let (pos, fits) = rank_bounds (suc (length xs)) p (omega arith) hp h in
    let same : min (suc (length xs) - 1) (rank (suc (length xs)) p - 1)
        ≡ rank (suc (length xs)) p - 1 =
      ground arith in
    let (v, found) =
      get_elem?-some (sort (a ∷ xs)) (rank (suc (length xs)) p - 1)
        (omega (arith, length-sort (a ∷ xs))) in
    rw (length-sort (a ∷ xs), same, found) refl

-- The nearest rank: of the values, at least the share `p` is at most the percentile, and less than that
-- share is below it.
pub percentile_counts :
    (a : ℕ) (xs : List ℕ) (p : ℕ)
    → 0 < p
    → p ≤ 100
    → (rank (length (a ∷ xs)) p ≤ count_if (λ x. leb x (percentile (a ∷ xs) p)) (a ∷ xs))
      × (count_if (λ x. ltb x (percentile (a ∷ xs) p)) (a ∷ xs) < rank (length (a ∷ xs)) p)
percentile_counts a xs p hp h =
    let (pos, fits) = rank_bounds (suc (length xs)) p (omega arith) hp h in
    let (most, fewer) =
      elem_counts (sort (a ∷ xs)) (rank (suc (length xs)) p - 1) (percentile (a ∷ xs) p)
        (sort-IsSorted (a ∷ xs)) (percentile_index a xs p hp h) in
    omega (
      arith,
      count-sort (λ x. leb x (percentile (a ∷ xs) p)) (a ∷ xs),
      count-sort (λ x. ltb x (percentile (a ∷ xs) p)) (a ∷ xs),
    )

-- A percentile is one of the values.
pub All-percentile :
    (P : ℕ → Type 0) (a : ℕ) (xs : List ℕ) (p : ℕ)
    → 0 < p
    → p ≤ 100
    → All P (a ∷ xs)
    → P (percentile (a ∷ xs) p)
All-percentile P a xs p hp h all =
    get_elem?-All P (sort (a ∷ xs)) (rank (suc (length xs)) p - 1) (percentile (a ∷ xs) p)
      (All-sort P (a ∷ xs) all) (percentile_index a xs p hp h)

pub percentile_mono :
    (a : ℕ) (xs : List ℕ) (p q : ℕ)
    → 0 < p
    → p ≤ q
    → q ≤ 100
    → percentile (a ∷ xs) p ≤ percentile (a ∷ xs) q
percentile_mono a xs p q hp le h =
    let more : p * suc (length xs) ≤ q * suc (length xs) = grind arith in
    elem_mono (sort (a ∷ xs)) (rank (suc (length xs)) p - 1) (rank (suc (length xs)) q - 1)
      (percentile (a ∷ xs) p) (percentile (a ∷ xs) q) (sort-IsSorted (a ∷ xs)) (omega arith)
      (percentile_index a xs p hp (omega arith)) (percentile_index a xs q (omega arith) h)
