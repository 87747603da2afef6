-- ===== src/Signatures/Order.antt =====
-- The canonical form of a JSON value does not depend on the order of its fields
-- (apps/web/lib/cryptographic-signatures.ts).
use openwrapper.Prelude.{
  ap₂, ◌≡◌, ◌≢◌, refl, sym, ◌∙◌, ap, true, false, [], ◌∷◌, arith, inl, inr, Bool-cases,
}
use openwrapper.Js.Text.{Text}
use openwrapper.Js.Json.{Json, obj, arr, Fields, end, field, Elems, nil, cons}
use openwrapper.Signatures.Canonical.{
  text_leb, insert_field, canonicalize_json, canonicalize_items, canonicalize_fields,
  compute_canonical_fingerprint,
}

text_leb_total : (s t : Text) → text_leb s t ≡ false → text_leb t s ≡ true
unfolding text_leb
text_leb_total [] t h = cc
text_leb_total (a ∷ s) [] h = refl
text_leb_total (a ∷ s) (b ∷ t) h = ground (arith, text_leb_total s t)

text_leb_antisym : (s t : Text) → text_leb s t ≡ true → text_leb t s ≡ true → s ≡ t
unfolding text_leb
text_leb_antisym [] [] h k = refl
text_leb_antisym [] (b ∷ t) h k = cc
text_leb_antisym (a ∷ s) [] h k = cc
text_leb_antisym (a ∷ s) (b ∷ t) h k = ground (arith, text_leb_antisym s t)

text_leb_trans : (s t u : Text) → text_leb s t ≡ true → text_leb t u ≡ true → text_leb s u ≡ true
unfolding text_leb
text_leb_trans [] t u h k = refl
text_leb_trans (a ∷ s) [] u h k = cc
text_leb_trans (a ∷ s) (b ∷ t) [] h k = cc
text_leb_trans (a ∷ s) (b ∷ t) (c ∷ u) h k = ground (arith, text_leb_trans s t u)

-- Two names in strict order.
text_leb-strict : (k j : Text) → k ≢ j → text_leb k j ≡ true → text_leb j k ≡ false
text_leb-strict k j ne h = elim (Bool-cases (text_leb j k)) [
  | inl back ↦ absurd (ne (text_leb_antisym k j h back))
  | inr strict ↦ strict
]

insert_field-ordered :
    (k j : Text) (v w : Json) (fs : Fields)
    → k ≢ j
    → text_leb k j ≡ true
    → insert_field k v (insert_field j w fs) ≡ insert_field j w (insert_field k v fs)
unfolding insert_field
insert_field-ordered k j v w end ne h = rw (h, text_leb-strict k j ne h) refl
insert_field-ordered k j v w (field i u fs) ne h =
    ground (
      arith,
      text_leb-strict k j ne h,
      text_leb_trans k j i h,
      insert_field-ordered k j v w fs ne h,
    )

-- Fields with different names go in in either order.
insert_field-insert_field :
    (k j : Text) (v w : Json) (fs : Fields)
    → k ≢ j
    → insert_field k v (insert_field j w fs) ≡ insert_field j w (insert_field k v fs)
insert_field-insert_field k j v w fs ne = elim (Bool-cases (text_leb k j)) [
  | inl h ↦ insert_field-ordered k j v w fs ne h
  | inr h ↦ sym (insert_field-ordered j k w v fs (λ e. ne (sym e)) (text_leb_total k j h))
]

-- Two JSON values that differ in the order of fields, at any depth; fields that change places have
-- different names.
mutual
  pub data Reordered : Json → Json → Type 0 where
    same : {v : Json} → Reordered v v
    of_fields : {fs gs : Fields} → ReorderedFields fs gs → Reordered (obj fs) (obj gs)
    of_items : {xs ys : Elems} → ReorderedItems xs ys → Reordered (arr xs) (arr ys)

  pub data ReorderedItems : Elems → Elems → Type 0 where
    no_items : ReorderedItems nil nil
    more_items :
        {v w : Json} {xs ys : Elems}
        → Reordered v w
        → ReorderedItems xs ys
        → ReorderedItems (cons v xs) (cons w ys)

  pub data ReorderedFields : Fields → Fields → Type 0 where
    no_fields : ReorderedFields end end
    more_fields :
        {k : Text} {v w : Json} {fs gs : Fields}
        → Reordered v w
        → ReorderedFields fs gs
        → ReorderedFields (field k v fs) (field k w gs)
    swapped :
        {k j : Text} {v w : Json} {fs : Fields}
        → k ≢ j
        → ReorderedFields (field k v (field j w fs)) (field j w (field k v fs))
    in_two_steps :
        {fs gs hs : Fields} → ReorderedFields fs gs → ReorderedFields gs hs → ReorderedFields fs hs

mutual
  unfolding canonicalize_json

  canonicalize_json-Reordered :
      {v w : Json} → Reordered v w → canonicalize_json v ≡ canonicalize_json w
  canonicalize_json-Reordered same = refl
  canonicalize_json-Reordered (of_fields r) = ap obj (canonicalize_fields-Reordered r)
  canonicalize_json-Reordered (of_items r) = ap arr (canonicalize_items-Reordered r)

  canonicalize_items-Reordered :
      {xs ys : Elems} → ReorderedItems xs ys → canonicalize_items xs ≡ canonicalize_items ys
  canonicalize_items-Reordered no_items = refl
  canonicalize_items-Reordered (more_items r rs) =
      ap₂ cons (canonicalize_json-Reordered r) (canonicalize_items-Reordered rs)

  canonicalize_fields-Reordered :
      {fs gs : Fields} → ReorderedFields fs gs → canonicalize_fields fs ≡ canonicalize_fields gs
  canonicalize_fields-Reordered no_fields = refl
  canonicalize_fields-Reordered (more_fields {k} r rs) =
      ap₂ (insert_field k) (canonicalize_json-Reordered r) (canonicalize_fields-Reordered rs)
  canonicalize_fields-Reordered (swapped {k} {j} {v} {w} {fs} ne) =
      insert_field-insert_field k j (canonicalize_json v) (canonicalize_json w)
        (canonicalize_fields fs) ne
  canonicalize_fields-Reordered (in_two_steps r s) =
      canonicalize_fields-Reordered r ∙ canonicalize_fields-Reordered s

-- The fingerprint of a payload is the same whatever the order of the fields of its objects, at every
-- depth.
pub compute_canonical_fingerprint-Reordered :
    (sha256 : Text → Text) (stringify : Json → Text) {v w : Json}
    → Reordered v w
    → compute_canonical_fingerprint sha256 stringify v
      ≡ compute_canonical_fingerprint sha256 stringify w
unfolding compute_canonical_fingerprint
compute_canonical_fingerprint-Reordered sha256 stringify r =
    ap (λ c. sha256 (stringify c)) (canonicalize_json-Reordered r)
