-- ===== src/Dashboard/Cache.antt =====
-- `metricsCache` of apps/web/lib/dashboard-telemetry-service.ts. A JavaScript `Map` is a list of entries
-- in the order of insertion; setting a key that is there leaves it in its place. `getDashboardData`
-- awaits the database between its look at the cache and its write, so the two are functions of their own.
pub mod Laws
pub mod Invariant
pub mod Reach
use openwrapper.Prelude.{
  ℕ, suc, ◌+◌, ◌-◌, Bool, Option, none, some, List, [], ◌∷◌, ◌++◌, ltb, leb, if◌then◌else◌, length,
}
use openwrapper.Js.Text.{Text, codes, ◌===◌, truthy}
use openwrapper.Store.{Mode, live, test, mode_text}

abbrev pub metrics_cache_ttl_ms : ℕ
metrics_cache_ttl_ms = 30_000

abbrev pub metrics_cache_max_entries : ℕ
metrics_cache_max_entries = 500

-- `${userId}:${environment}`
abbrev pub cache_key : Text → Mode → Text
cache_key user m = user ++ (b':' ∷ mode_text m)

pub record Entry (D : Type 0) : Type 0 where
  pub key : Text
  pub at : ℕ
  pub value : D

abbrev pub Cache : Type 0 → Type 0
Cache D = List (Entry D)

module _ {D : Type 0} where
  -- `map.get(key)`
  unfoldable pub lookup : Text → Cache D → Option (Entry D)
  lookup k [] = none
  lookup k (e ∷ c) = if e.key === k then some e else lookup k c

  -- `map.delete(key)`
  unfoldable pub delete : Text → Cache D → Cache D
  delete k [] = []
  delete k (e ∷ c) = if e.key === k then c else e ∷ delete k c

  -- `map.set(key, value)`
  unfoldable pub set : Entry D → Cache D → Cache D
  set e [] = e ∷ []
  set e (f ∷ c) = if f.key === e.key then e ∷ c else f ∷ set e c

  -- `Date.now() - cached.at < METRICS_CACHE_TTL_MS`; the difference of a clock that was set back is
  -- negative.
  abbrev pub is_fresh : ℕ → Entry D → Bool
  is_fresh now e = ltb now (e.at + metrics_cache_ttl_ms)

  abbrev pub fresh_value : ℕ → Option (Entry D) → Option D
  fresh_value now none = none
  fresh_value now (some e) = if is_fresh now e then some e.value else none

  -- `getDashboardData` up to its `await`: none where the data is fetched.
  unfoldable pub read_cache : Text → Mode → ℕ → Cache D → Option D
  unfolding lookup
  read_cache user m now c = fresh_value now (lookup (cache_key user m) c)

  -- `metricsCache.delete(oldestKey)` for the first key, if that is not empty.
  abbrev pub evict_oldest : Cache D → Cache D
  evict_oldest [] = []
  evict_oldest (e ∷ c) = if truthy e.key then delete e.key (e ∷ c) else e ∷ c

  abbrev pub make_room : Cache D → Cache D
  make_room c = if leb metrics_cache_max_entries (length c) then evict_oldest c else c

  -- `getDashboardData` behind its `await`.
  unfoldable pub write_cache : Text → Mode → ℕ → D → Cache D → Cache D
  unfolding delete set
  write_cache user m now value c =
      set (record { key = cache_key user m; at = now; value = value }) (make_room c)

  abbrev pub invalidate_user : Text → Option Mode → Cache D → Cache D
  invalidate_user user (some m) c = delete (cache_key user m) c
  invalidate_user user none c =
      delete user (delete (cache_key user test) (delete (cache_key user live) c))

  -- `invalidateDashboardData`
  unfoldable pub invalidate : Option Text → Option Mode → Cache D → Cache D
  unfolding delete
  invalidate none m c = []
  invalidate (some []) m c = []
  invalidate (some (u ∷ user)) m c = invalidate_user (u ∷ user) m c
