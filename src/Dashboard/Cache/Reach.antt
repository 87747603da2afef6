-- ===== src/Dashboard/Cache/Reach.antt =====
-- Any interleaving of dashboard requests and invalidations
-- (apps/web/lib/dashboard-telemetry-service.ts), as a relation on the cache and the clock.
use openwrapper.Prelude.{
  ℕ, ◌+◌, ◌≤◌, ◌<◌, ◌≡◌, refl, Option, none, some, [], true, false, All, arith, length,
  if◌then◌else◌,
}
use openwrapper.Js.Text.{Text}
use openwrapper.Store.{Mode, live, test}
use openwrapper.Dashboard.Cache.{
  invalidate_user, cache_key, Bool, lookup, ◌∷◌, Cache, read_cache, write_cache, invalidate,
}
use openwrapper.Dashboard.Cache.Laws.{
  delete-IsDistinct, All-delete, delete-Lacks, lookup-Lacks, Lacks, IsDistinct,
}
use openwrapper.Dashboard.Cache.Invariant.{
  length-invalidate_user_le, invalidate_user-IsDistinct, length-write_cache, invalidate_user-All,
  write_cache-IsDistinct, write_cache-IsFetched, read_cache_sound, IsFetched,
}

pub record Clocked (D : Type 0) : Type 0 where
  pub now : ℕ
  pub cache : Cache D

abbrev pub empty : {D : Type 0} → ℕ → Clocked D
empty now = record { now = now; cache = [] }

-- A fetch may end long after its request looked at the cache, and after other requests wrote to it.
module _ {D : Type 0} (Fetched : Text → Mode → ℕ → D → Type 0) where
  pub data Step : Clocked D → Clocked D → Type 0 where
    passes : (s : Clocked D) (ms : ℕ) → Step s (record s { now = s.now + ms })
    writes :
        (s : Clocked D) (user : Text) (m : Mode) (d : D)
        → Fetched user m s.now d
        → Step s (record s { cache = write_cache user m s.now d s.cache })
    invalidates :
        (s : Clocked D) (user : Option Text) (m : Option Mode)
        → Step s (record s { cache = invalidate user m s.cache })

  pub data Reach (s : Clocked D) : Clocked D → Type 0 where
    here : Reach s s
    next : {t u : Clocked D} → Reach s t → Step t u → Reach s u

  pub record IsSound (s : Clocked D) : Type 0 where
    pub fetched : All (IsFetched Fetched) s.cache
    pub distinct : IsDistinct s.cache
    pub bounded : length s.cache ≤ 500

  invalidate-IsSound :
      (user : Option Text) (m : Option Mode) (s : Clocked D)
      → IsSound s
      → IsSound (record s { cache = invalidate user m s.cache })
  unfolding invalidate
  invalidate-IsSound none m s h = record { fetched = tt; distinct = tt; bounded = omega arith }
  invalidate-IsSound (some []) m s h = record { fetched = tt; distinct = tt; bounded = omega arith }
  invalidate-IsSound (some (c ∷ user)) m s h = record {
    fetched = invalidate_user-All Fetched (IsFetched Fetched) (c ∷ user) m s.cache h.fetched;
    distinct = invalidate_user-IsDistinct Fetched (c ∷ user) m s.cache h.distinct;
    bounded = omega (arith, length-invalidate_user_le Fetched (c ∷ user) m s.cache, h.bounded);
  }

  Step-IsSound : {s t : Clocked D} → Step s t → IsSound s → IsSound t
  Step-IsSound (passes s ms) h = record {
    fetched = h.fetched;
    distinct = h.distinct;
    bounded = h.bounded;
  }
  Step-IsSound (writes s user m d f) h = record {
    fetched = write_cache-IsFetched Fetched user m s.now d s.cache f h.fetched;
    distinct = write_cache-IsDistinct Fetched user m s.now d s.cache h.distinct;
    bounded = length-write_cache Fetched user m s.now d s.cache h.fetched h.bounded;
  }
  Step-IsSound (invalidates s user m) h = invalidate-IsSound user m s h

  Reach-IsSound : {s t : Clocked D} → IsSound s → Reach s t → IsSound t
  Reach-IsSound h here = h
  Reach-IsSound h (next r st) = Step-IsSound st (Reach-IsSound h r)

  empty-IsSound : (now : ℕ) → IsSound (empty now)
  empty-IsSound now = record { fetched = tt; distinct = tt; bounded = omega arith }

  -- Whatever requests and invalidations interleave, the cache holds at most 500 entries, and no two for
  -- one key.
  pub Reach-bounded :
      (start : ℕ) (s : Clocked D)
      → Reach (empty start) s
      → (length s.cache ≤ 500) × IsDistinct s.cache
  Reach-bounded start s r = let h = Reach-IsSound (empty-IsSound start) r in (h.bounded, h.distinct)

  -- Whatever requests and invalidations interleave: what the cache gives for a user and an environment
  -- was fetched for that user and that environment, less than 30 seconds before.
  pub Reach-read_cache :
      (start : ℕ) (s : Clocked D) (user : Text) (m : Mode) (d : D)
      → Reach (empty start) s
      → read_cache user m s.now s.cache ≡ some d
      → (at : ℕ) × Fetched user m at d × (s.now < at + 30_000)
  Reach-read_cache start s user m d r h =
      let sound = Reach-IsSound (empty-IsSound start) r in
      read_cache_sound Fetched user m s.now s.cache d sound.fetched h

  invalidate_user-Lacks :
      (user : Text) (m : Mode) (given : Bool) (c : Cache D)
      → IsDistinct c
      → Lacks (cache_key user m) (invalidate_user user (if given then some m else none) c)
  invalidate_user-Lacks user m true c h = delete-Lacks (cache_key user m) c h
  invalidate_user-Lacks user live false c h =
      All-delete _ user _
        (All-delete _ (cache_key user test) _ (delete-Lacks (cache_key user live) c h))
  invalidate_user-Lacks user test false c h =
      All-delete _ user _
        (delete-Lacks (cache_key user test) _ (delete-IsDistinct (cache_key user live) c h))

  missed :
      (user : Text) (m : Mode) (given : Bool) (now : ℕ) (c : Cache D)
      → IsDistinct c
      → read_cache user m now (invalidate (some user) (if given then some m else none) c) ≡ none
  unfolding read_cache invalidate lookup
  missed [] m given now c h = refl
  missed (u ∷ user) m given now c h =
      rw (lookup-Lacks _ _ (invalidate_user-Lacks (u ∷ user) m given c h)) refl

  -- After an invalidation for the user's environment, or for all of the user's, the next request misses
  -- the cache, whatever happened before.
  Reach-read_cache-invalidate :
      (start : ℕ) (s : Clocked D) (user : Text) (m : Mode) (given : Bool) (now : ℕ)
      → Reach (empty start) s
      → read_cache user m now (invalidate (some user) (if given then some m else none) s.cache)
        ≡ none
  Reach-read_cache-invalidate start s user m given now r =
      missed user m given now s.cache (Reach-bounded start s r).1
