-- ===== src/Dashboard/Cache/Invariant.antt =====
-- What the cache of the dashboard (apps/web/lib/dashboard-telemetry-service.ts) holds, whatever requests
-- interleave.
use openwrapper.Prelude.{
  ltb→lt, Option-cases, ℕ, ◌+◌, ◌≤◌, ◌<◌, ◌≡◌, refl, true, Option, none, some, [], ◌∷◌, All, arith,
  length, Bool-cases, inl, inr, sym, ◌∙◌, subst,
}
use openwrapper.Js.Text.{Text, ◌===◌, ===_iff, truthy}
use openwrapper.Dashboard.Cache.{
  Entry, Cache, cache_key, lookup, read_cache, write_cache, delete, fresh_value, is_fresh,
  make_room, invalidate_user,
}
use openwrapper.Dashboard.Cache.Laws.{
  All-make_room, length-make_room, make_room-IsDistinct, cache_key-injective, set-IsDistinct,
  length-set_le, length-delete_le, All-delete, delete-IsDistinct, All-set, IsDistinct,
}
use openwrapper.Store.{Mode, live, test}

-- A cache entry is what was fetched for its key.
module _ {D : Type 0} (Fetched : Text → Mode → ℕ → D → Type 0) where
  abbrev pub IsFetched : Entry D → Type 0
  IsFetched e =
      (user : Text) × (m : Mode) × (e.key ≡ cache_key user m) × Fetched user m e.at e.value

  lookup-IsFetched :
      (k : Text) (c : Cache D) (e : Entry D)
      → All IsFetched c
      → lookup k c ≡ some e
      → IsFetched e × (e.key ≡ k)
  unfolding lookup
  lookup-IsFetched k [] e h q = cc
  lookup-IsFetched k (f ∷ c) e (p, h) q = elim (Bool-cases (f.key === k)) [
    | inl same ↦
        let eq : f ≡ e = ground arith in
        subst (λ x. IsFetched x × (x.key ≡ k)) eq (p, (===_iff f.key k).0 same)
    | inr other ↦ lookup-IsFetched k c e h (ground arith)
  ]

  fresh_value_sound :
      (now : ℕ) (e : Entry D) (d : D)
      → fresh_value now (some e) ≡ some d
      → (now < e.at + 30_000) × (e.value ≡ d)
  fresh_value_sound now e d h = elim (Bool-cases (is_fresh now e)) [
    | inl yes_fresh ↦ (ltb→lt now (e.at + 30_000) yes_fresh, ground arith)
    | inr stale ↦ ground arith
  ]

  -- The data that the cache gives was fetched for the user and environment that are asked for, less
  -- than 30 seconds before.
  pub read_cache_sound :
      (user : Text) (m : Mode) (now : ℕ) (c : Cache D) (d : D)
      → All IsFetched c
      → read_cache user m now c ≡ some d
      → (at : ℕ) × Fetched user m at d × (now < at + 30_000)
  unfolding read_cache
  read_cache_sound user m now c d h q = elim (Option-cases (lookup (cache_key user m) c)) [
    | inl missing ↦ cc
    | inr (e, found) ↦
        let ((u, n, key, fetched), same) = lookup-IsFetched (cache_key user m) c e h found in
        let (fresh, value) = fresh_value_sound now e d (rw found at q) in
        let (eu, em) = cache_key-injective u user n m (sym key ∙ same) in
        (
          e.at,
          subst (λ x. Fetched user m e.at x) value
              (subst (λ x. Fetched x m e.at e.value) eu
                (subst (λ x. Fetched u x e.at e.value) em fetched)),
          fresh,
        )
  ]

  truthy-cache_key : (user : Text) (m : Mode) → truthy (cache_key user m) ≡ true
  truthy-cache_key [] m = refl
  truthy-cache_key (c ∷ user) m = refl

  keys-truthy : (c : Cache D) → All IsFetched c → All (λ e. truthy e.key ≡ true) c
  keys-truthy [] h = tt
  keys-truthy (e ∷ c) ((user, m, key, fetched), h) =
      (rw key (truthy-cache_key user m), keys-truthy c h)

  pub write_cache-IsFetched :
      (user : Text) (m : Mode) (now : ℕ) (d : D) (c : Cache D)
      → Fetched user m now d
      → All IsFetched c
      → All IsFetched (write_cache user m now d c)
  unfolding write_cache
  write_cache-IsFetched user m now d c f h =
      All-set IsFetched _ (make_room c) (user, m, refl, f) (All-make_room IsFetched c h)

  pub length-write_cache :
      (user : Text) (m : Mode) (now : ℕ) (d : D) (c : Cache D)
      → All IsFetched c
      → length c ≤ 500
      → length (write_cache user m now d c) ≤ 500
  unfolding write_cache
  length-write_cache user m now d c h b = omega (
    arith,
    length-set_le (record { key = cache_key user m; at = now; value = d }) (make_room c),
    length-make_room c (keys-truthy c h) b,
  )

  pub write_cache-IsDistinct :
      (user : Text) (m : Mode) (now : ℕ) (d : D) (c : Cache D)
      → IsDistinct c
      → IsDistinct (write_cache user m now d c)
  unfolding write_cache
  write_cache-IsDistinct user m now d c h =
      set-IsDistinct _ (make_room c) (make_room-IsDistinct c h)

  pub invalidate_user-All :
      (P : Entry D → Type 0) (user : Text) (m : Option Mode) (c : Cache D)
      → All P c
      → All P (invalidate_user user m c)
  invalidate_user-All P user (some m) c h = All-delete P _ c h
  invalidate_user-All P user none c h = All-delete P _ _ (All-delete P _ _ (All-delete P _ c h))

  pub invalidate_user-IsDistinct :
      (user : Text) (m : Option Mode) (c : Cache D)
      → IsDistinct c
      → IsDistinct (invalidate_user user m c)
  invalidate_user-IsDistinct user (some m) c h = delete-IsDistinct _ c h
  invalidate_user-IsDistinct user none c h =
      delete-IsDistinct _ _ (delete-IsDistinct _ _ (delete-IsDistinct _ c h))

  pub length-invalidate_user_le :
      (user : Text) (m : Option Mode) (c : Cache D) → length (invalidate_user user m c) ≤ length c
  length-invalidate_user_le user (some m) c = length-delete_le (cache_key user m) c
  length-invalidate_user_le user none c =
      let live_gone = delete (cache_key user live) c in
      let test_gone = delete (cache_key user test) live_gone in
      omega (
        arith,
        length-delete_le (cache_key user live) c,
        length-delete_le (cache_key user test) live_gone,
        length-delete_le user test_gone,
      )
