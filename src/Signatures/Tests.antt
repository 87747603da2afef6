-- ===== src/Signatures/Tests.antt =====
-- A fingerprint of two writings of one object.
use openwrapper.Prelude.{◌++◌, [], ◌≡◌, arith}
use openwrapper.Js.Text.{Text, codes}
use openwrapper.Js.Json.{Json, Fields, obj, int, field, end}
use openwrapper.Signatures.Canonical.{compute_canonical_fingerprint}
use openwrapper.Signatures.Order.{of_fields, swapped, compute_canonical_fingerprint-Reordered}

abbrev one_way : Json
one_way = obj (field (codes "a") (int 1) (field (codes "b") (int 2) end))

abbrev other_way : Json
other_way = obj (field (codes "b") (int 2) (field (codes "a") (int 1) end))

-- A printer that shows the names of the fields of an object in their order.
abbrev names : Fields → Text
names end = []
names (field k v fs) = k ++ names fs

abbrev print_names : Json → Text
print_names (obj fs) = names fs
print_names _ = []

compute_canonical_fingerprint-Reordered_example :
    compute_canonical_fingerprint (λ s. s) print_names one_way
    ≡ compute_canonical_fingerprint (λ s. s) print_names other_way
compute_canonical_fingerprint-Reordered_example =
    compute_canonical_fingerprint-Reordered (λ s. s) print_names
      (of_fields (swapped (λ e. ground arith)))
