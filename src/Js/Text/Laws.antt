-- ===== src/Js/Text/Laws.antt =====
-- Splitting at a separator, and trimming a text with no white space.
use mathlib.Core.List.{reverse-cons, reverse-reverse}
use openwrapper.Prelude.{
  ℕ, ◌≡◌, ◌≢◌, refl, false, [], ◌∷◌, ◌++◌, reverse, append_assoc, append-nil, arith, All,
  All-append,
}
use openwrapper.Js.Text.{Text, split_from, split, is_space, trim_start, trim_end, trim}

module _ (sep : ℕ) where
  abbrev pub Lacks : Text → Type 0
  Lacks s = All (λ c. c ≢ sep) s

  split_from-Lacks : (cur s : Text) → Lacks s → split_from sep cur s ≡ (reverse cur ++ s) ∷ []
  unfolding split_from
  split_from-Lacks cur [] h = rw append-nil
  split_from-Lacks cur (c ∷ s) (ne, h) = ground (
    arith,
    split_from-Lacks (c ∷ cur) s h,
    reverse-cons c cur,
    append_assoc (reverse cur) (c ∷ []) s,
  )

  split_from-append :
      (cur s t : Text)
      → Lacks s
      → split_from sep cur (s ++ sep ∷ t) ≡ (reverse cur ++ s) ∷ split_from sep [] t
  unfolding split_from
  split_from-append cur [] t h = ground (arith, append-nil (reverse cur))
  split_from-append cur (c ∷ s) t (ne, h) = ground (
    arith,
    split_from-append (c ∷ cur) s t h,
    reverse-cons c cur,
    append_assoc (reverse cur) (c ∷ []) s,
  )

  -- A text with no separator is its only piece.
  pub split-Lacks : (s : Text) → Lacks s → split sep s ≡ s ∷ []
  unfolding split
  split-Lacks s h = split_from-Lacks [] s h

  -- The piece before the first separator is split off.
  pub split-append : (s t : Text) → Lacks s → split sep (s ++ sep ∷ t) ≡ s ∷ split sep t
  unfolding split
  split-append s t h = split_from-append [] s t h

abbrev pub IsVisible : ℕ → Type 0
IsVisible c = is_space c ≡ false

trim_start-All : (s : Text) → All IsVisible s → trim_start s ≡ s
unfolding trim_start
trim_start-All [] h = refl
trim_start-All (c ∷ s) (v, h) = rw v

All-reverse : (s : Text) → All IsVisible s → All IsVisible (reverse s)
All-reverse [] h = tt
All-reverse (c ∷ s) (v, h) =
    rw (reverse-cons c s) (All-append IsVisible (reverse s) (c ∷ []) (All-reverse s h) (v, tt))

-- Trimming a text with no white space changes nothing.
pub trim-All : (s : Text) → All IsVisible s → trim s ≡ s
unfolding trim trim_end
trim-All s h =
    rw (trim_start-All s h, trim_start-All (reverse s) (All-reverse s h), reverse-reverse s)
