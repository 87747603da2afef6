-- ===== src/Dashboard/Percentile.antt =====
-- `percentile` of apps/web/lib/dashboard-telemetry-service.ts. The share `p / 100` times the number of
-- values is rounded up exactly, as the floating-point product is for the shares 50 and 95 and the at most
-- 200 values that the service passes.
pub mod Rank
use openwrapper.Prelude.{
  ℕ, ◌+◌, ◌-◌, ◌*◌, ◌/◌, Option, none, some, List, [], ◌∷◌, leb, if◌then◌else◌, length, get_elem?,
}
use Prim.Native.Nat.{min}

unfoldable pub insert : ℕ → List ℕ → List ℕ
insert a [] = a ∷ []
insert a (b ∷ xs) = if leb a b then a ∷ b ∷ xs else b ∷ insert a xs

-- `[...values].sort((a, b) => a - b)`
unfoldable pub sort : List ℕ → List ℕ
unfolding insert
sort [] = []
sort (a ∷ xs) = insert a (sort xs)

-- `sorted[i] ?? 0`
abbrev pub get_or_zero : Option ℕ → ℕ
get_or_zero none = 0
get_or_zero (some a) = a

-- `Math.ceil((p / 100) * n)`
abbrev pub rank : ℕ → ℕ → ℕ
rank n p = (p * n + 99) / 100

unfoldable pub percentile : List ℕ → ℕ → ℕ
unfolding sort
percentile [] p = 0
percentile (a ∷ values) p =
    let sorted = sort (a ∷ values) in
    get_or_zero (get_elem? sorted (min (length sorted - 1) (rank (length sorted) p - 1)))
