-- ===== src/Signatures/Canonical.antt =====
-- `canonicalizeJson` and `computeCanonicalFingerprint` of apps/web/lib/cryptographic-signatures.ts.
-- SHA-256 in hex and `JSON.stringify` are arguments.
use openwrapper.Prelude.{Bool, true, false, [], ◌∷◌, ltb, ◌==◌, if◌then◌else◌}
use openwrapper.Js.Text.{Text}
use openwrapper.Js.Json.{
  Json, null, bool, int, num, str, arr, obj, Elems, nil, cons, Fields, end, field,
}

-- The order of `Array.prototype.sort` on texts: by code units, a prefix first.
unfoldable pub text_leb : Text → Text → Bool
text_leb [] t = true
text_leb (_ ∷ _) [] = false
text_leb (a ∷ s) (b ∷ t) = if a == b then text_leb s t else ltb a b

-- A field at its place among sorted ones.
unfoldable pub insert_field : Text → Json → Fields → Fields
unfolding text_leb
insert_field k v end = field k v end
insert_field k v (field j w fs) =
    if text_leb k j then field k v (field j w fs) else field j w (insert_field k v fs)

-- `canonicalizeJson`: the fields of every object in the order of their names. Names that are array
-- indices, which a JavaScript object lists first, are treated as the others.
unfoldable mutual
  unfolding insert_field

  pub canonicalize_json : Json → Json
  canonicalize_json null = null
  canonicalize_json (bool b) = bool b
  canonicalize_json (int n) = int n
  canonicalize_json (num s) = num s
  canonicalize_json (str s) = str s
  canonicalize_json (arr xs) = arr (canonicalize_items xs)
  canonicalize_json (obj fs) = obj (canonicalize_fields fs)

  pub canonicalize_items : Elems → Elems
  canonicalize_items nil = nil
  canonicalize_items (cons x xs) = cons (canonicalize_json x) (canonicalize_items xs)

  pub canonicalize_fields : Fields → Fields
  canonicalize_fields end = end
  canonicalize_fields (field k v fs) = insert_field k (canonicalize_json v) (canonicalize_fields fs)

unfoldable pub compute_canonical_fingerprint : (Text → Text) → (Json → Text) → Json → Text
unfolding canonicalize_json
compute_canonical_fingerprint sha256 stringify payload =
    sha256 (stringify (canonicalize_json payload))
