-- ===== src/Dashboard/Cache/Laws.antt =====
-- The keys of the cache of apps/web/lib/dashboard-telemetry-service.ts, and what its methods leave.
use openwrapper.Prelude.{
  ap₂, subst, ◌+◌, ◌≤◌, ◌≡◌, refl, true, false, none, [], ◌∷◌, All, arith, length, length-append,
  Bool-cases, inl, inr, ap,
}
use openwrapper.Js.Text.{===_ne_symm, Text, codes, ◌===◌, ===_iff, ===_refl}
use openwrapper.Store.{Mode, live, test, mode_text}
use openwrapper.Dashboard.Cache.{
  metrics_cache_max_entries, leb, make_room, evict_oldest, truthy, List, Entry, Cache, cache_key,
  lookup, delete, set,
}

tail_of : {A : Type 0} {a b : A} {s t : List A} → (a ∷ s) ≡ (b ∷ t) → (a ≡ b) × (s ≡ t)
tail_of h = (cc, cc)

mode_text-injective : (m m' : Mode) → mode_text m ≡ mode_text m' → m ≡ m'
unfolding ◌===◌
mode_text-injective live live h = refl
mode_text-injective live test h = cc ((===_iff (codes "live") (codes "test")).1 h)
mode_text-injective test live h = cc ((===_iff (codes "test") (codes "live")).1 h)
mode_text-injective test test h = refl

length-cache_key : (user : Text) (m : Mode) → length (cache_key user m) ≡ length user + 5
length-cache_key user live = length-append user (codes ":live")
length-cache_key user test = length-append user (codes ":test")

-- A key of the cache says whose data it stands for.
pub cache_key-injective :
    (u v : Text) (m n : Mode) → cache_key u m ≡ cache_key v n → (u ≡ v) × (m ≡ n)
cache_key-injective [] [] m n h = (refl, mode_text-injective m n (tail_of h).1)
cache_key-injective [] (c ∷ v) m n h =
    absurd (omega (arith, ap length h, length-cache_key [] m, length-cache_key (c ∷ v) n))
cache_key-injective (c ∷ u) [] m n h =
    absurd (omega (arith, ap length h, length-cache_key (c ∷ u) m, length-cache_key [] n))
cache_key-injective (c ∷ u) (d ∷ v) m n h =
    let (head, tail) = tail_of h in
    let (same, mode) = cache_key-injective u v m n tail in (ap₂ ◌∷◌ head same, mode)

module _ {D : Type 0} where
  -- No entry has the key.
  abbrev pub Lacks : Text → Cache D → Type 0
  Lacks k c = All (λ e. (e.key === k) ≡ false) c

  abbrev pub IsDistinct : Cache D → Type 0
  IsDistinct [] = Unit
  IsDistinct (e ∷ c) = Lacks e.key c × IsDistinct c

  pub All-delete : (P : Entry D → Type 0) (k : Text) (c : Cache D) → All P c → All P (delete k c)
  unfolding delete
  All-delete P k [] h = tt
  All-delete P k (e ∷ c) (p, h) = elim (Bool-cases (e.key === k)) [
    | inl same ↦ rw same h
    | inr other ↦ rw other (p, All-delete P k c h)
  ]

  pub All-set : (P : Entry D → Type 0) (e : Entry D) (c : Cache D) → P e → All P c → All P (set e c)
  unfolding set
  All-set P e [] p h = (p, tt)
  All-set P e (f ∷ c) p (q, h) = elim (Bool-cases (f.key === e.key)) [
    | inl same ↦ rw same (p, h)
    | inr other ↦ rw other (q, All-set P e c p h)
  ]

  pub delete-IsDistinct : (k : Text) (c : Cache D) → IsDistinct c → IsDistinct (delete k c)
  unfolding delete
  delete-IsDistinct k [] h = tt
  delete-IsDistinct k (e ∷ c) (l, h) = elim (Bool-cases (e.key === k)) [
    | inl same ↦ rw same h
    | inr other ↦ rw other (All-delete _ k c l, delete-IsDistinct k c h)
  ]

  pub set-IsDistinct : (e : Entry D) (c : Cache D) → IsDistinct c → IsDistinct (set e c)
  unfolding set
  set-IsDistinct e [] h = (tt, tt)
  set-IsDistinct e (f ∷ c) (l, h) = elim (Bool-cases (f.key === e.key)) [
    | inl same ↦
        let eq : f.key ≡ e.key = (===_iff f.key e.key).0 same in
        rw same (subst (λ k. Lacks k c) eq l, h)
    | inr other ↦ rw other (All-set _ e c (===_ne_symm f.key e.key other) l, set-IsDistinct e c h)
  ]

  pub length-delete_le : (k : Text) (c : Cache D) → length (delete k c) ≤ length c
  unfolding delete
  length-delete_le k [] = omega arith
  length-delete_le k (e ∷ c) = ground (arith, length-delete_le k c)

  pub length-set_le : (e : Entry D) (c : Cache D) → length (set e c) ≤ length c + 1
  unfolding set
  length-set_le e [] = omega arith
  length-set_le e (f ∷ c) = ground (arith, length-set_le e c)

  pub lookup-Lacks : (k : Text) (c : Cache D) → Lacks k c → lookup k c ≡ none
  unfolding lookup
  lookup-Lacks k [] h = refl
  lookup-Lacks k (e ∷ c) (other, h) = rw other (lookup-Lacks k c h)

  -- A key that was deleted is gone.
  pub delete-Lacks : (k : Text) (c : Cache D) → IsDistinct c → Lacks k (delete k c)
  unfolding delete
  delete-Lacks k [] h = tt
  delete-Lacks k (e ∷ c) (l, h) = elim (Bool-cases (e.key === k)) [
    | inl same ↦ rw same (subst (λ j. Lacks j c) ((===_iff e.key k).0 same) l)
    | inr other ↦ rw other (other, delete-Lacks k c h)
  ]

  All-evict_oldest : (P : Entry D → Type 0) (c : Cache D) → All P c → All P (evict_oldest c)
  All-evict_oldest P [] h = tt
  All-evict_oldest P (e ∷ c) h = elim (Bool-cases (truthy e.key)) [
    | inl full ↦ rw full (All-delete P e.key (e ∷ c) h)
    | inr empty ↦ rw empty h
  ]

  evict_oldest-IsDistinct : (c : Cache D) → IsDistinct c → IsDistinct (evict_oldest c)
  evict_oldest-IsDistinct [] h = tt
  evict_oldest-IsDistinct (e ∷ c) h = elim (Bool-cases (truthy e.key)) [
    | inl full ↦ rw full (delete-IsDistinct e.key (e ∷ c) h)
    | inr empty ↦ rw empty h
  ]

  pub All-make_room : (P : Entry D → Type 0) (c : Cache D) → All P c → All P (make_room c)
  All-make_room P c h = elim (Bool-cases (leb metrics_cache_max_entries (length c))) [
    | inl full ↦ rw full (All-evict_oldest P c h)
    | inr space ↦ rw space h
  ]

  pub make_room-IsDistinct : (c : Cache D) → IsDistinct c → IsDistinct (make_room c)
  make_room-IsDistinct c h = elim (Bool-cases (leb metrics_cache_max_entries (length c))) [
    | inl full ↦ rw full (evict_oldest-IsDistinct c h)
    | inr space ↦ rw space h
  ]

  -- With room made, a full cache has place for one more.
  pub length-make_room :
      (c : Cache D) → All (λ e. truthy e.key ≡ true) c → length c ≤ 500 → length (make_room c) ≤ 499
  unfolding delete
  length-make_room [] h b = omega arith
  length-make_room (e ∷ c) (t, h) b =
      elim (Bool-cases (leb metrics_cache_max_entries (length (e ∷ c)))) [
        | inl full ↦ rw (full, t, ===_refl e.key) (omega arith)
        | inr space ↦ rw space (ground arith)
      ]
