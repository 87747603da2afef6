-- ===== src/Sdk/Client/Fields.antt =====
-- Which field of the bodies of sdk/typescript/src/client.ts is found under which name.
use openwrapper.Prelude.{◌≡◌, refl, true, false, Option, none, some}
use openwrapper.Js.Text.{Text, codes, ◌===◌}
use openwrapper.Js.Json.{Json, Fields, end, lookup}
use openwrapper.Sdk.Client.Params.{field_if}

-- A field that is looked up is found, and none other.
lookup-field_if_same :
    (k j : Text) (v : Option Json) (rest : Fields)
    → (j === k) ≡ true
    → lookup k rest ≡ none
    → lookup k (field_if j v rest) ≡ v
unfolding lookup
lookup-field_if_same k j none rest e h = h
lookup-field_if_same k j (some v) rest e h = rw e refl

lookup-field_if_other :
    (k j : Text) (v : Option Json) (rest : Fields)
    → (j === k) ≡ false
    → lookup k (field_if j v rest) ≡ lookup k rest
unfolding lookup
lookup-field_if_other k j none rest e = refl
lookup-field_if_other k j (some v) rest e = rw e refl

-- The fields behind the customer.
abbrev url_fields : Option Json → Option Json → Fields
url_fields u m = field_if (codes "return_url") u (field_if (codes "metadata") m end)

abbrev optional_fields : Option Json → Option Json → Option Json → Option Json → Fields
optional_fields r d u m =
    field_if (codes "merchant_reference") r (field_if (codes "description") d (url_fields u m))

lookup-url_fields_absent :
    (k : Text) (u m : Option Json)
    → (codes "return_url" === k) ≡ false
    → (codes "metadata" === k) ≡ false
    → lookup k (url_fields u m) ≡ none
unfolding lookup
lookup-url_fields_absent k u m c e =
    rw
      (
        lookup-field_if_other k (codes "return_url") u (field_if (codes "metadata") m end) c,
        lookup-field_if_other k (codes "metadata") m end e,
      )
      refl

lookup-optional_fields_other :
    (k : Text) (r d u m : Option Json)
    → (codes "merchant_reference" === k) ≡ false
    → (codes "description" === k) ≡ false
    → lookup k (optional_fields r d u m) ≡ lookup k (url_fields u m)
lookup-optional_fields_other k r d u m a b =
    rw
      (
        lookup-field_if_other k (codes "merchant_reference") r
            (field_if (codes "description") d (url_fields u m)) a,
        lookup-field_if_other k (codes "description") d (url_fields u m) b,
      )
      refl

pub lookup-merchant_reference :
    (r d u m : Option Json) → lookup (codes "merchant_reference") (optional_fields r d u m) ≡ r
unfolding ◌===◌
lookup-merchant_reference r d u m =
    let k = codes "merchant_reference" in
    lookup-field_if_same k k r (field_if (codes "description") d (url_fields u m)) refl (
      rw (lookup-field_if_other k (codes "description") d (url_fields u m) refl)
        (lookup-url_fields_absent k u m refl refl))

pub lookup-description :
    (r d u m : Option Json) → lookup (codes "description") (optional_fields r d u m) ≡ d
unfolding ◌===◌
lookup-description r d u m =
    let k = codes "description" in
    rw (lookup-field_if_other k (codes "merchant_reference") r (field_if k d (url_fields u m)) refl)
      (lookup-field_if_same k k d (url_fields u m) refl (lookup-url_fields_absent k u m refl refl))

pub lookup-return_url :
    (r d u m : Option Json) → lookup (codes "return_url") (optional_fields r d u m) ≡ u
unfolding ◌===◌ lookup
lookup-return_url r d u m =
    let k = codes "return_url" in
    rw (lookup-optional_fields_other k r d u m refl refl) (
      lookup-field_if_same k k u (field_if (codes "metadata") m end) refl
        (lookup-field_if_other k (codes "metadata") m end refl))

pub lookup-metadata :
    (r d u m : Option Json) → lookup (codes "metadata") (optional_fields r d u m) ≡ m
unfolding ◌===◌ lookup
lookup-metadata r d u m =
    let k = codes "metadata" in
    rw
      (
        lookup-optional_fields_other k r d u m refl refl,
        lookup-field_if_other k (codes "return_url") u (field_if k m end) refl,
      )
      (lookup-field_if_same k k m end refl refl)

-- A name that the client does not send is not found.
pub lookup-optional_fields_absent :
    (k : Text) (r d u m : Option Json)
    → (codes "merchant_reference" === k) ≡ false
    → (codes "description" === k) ≡ false
    → (codes "return_url" === k) ≡ false
    → (codes "metadata" === k) ≡ false
    → lookup k (optional_fields r d u m) ≡ none
lookup-optional_fields_absent k r d u m a b c e =
    rw (lookup-optional_fields_other k r d u m a b) (lookup-url_fields_absent k u m c e)

abbrev name_fields : Option Json → Option Json → Fields
name_fields e n = field_if (codes "email") e (field_if (codes "full_name") n end)

pub lookup-email : (e n : Option Json) → lookup (codes "email") (name_fields e n) ≡ e
unfolding ◌===◌ lookup
lookup-email e n =
    let k = codes "email" in
    lookup-field_if_same k k e (field_if (codes "full_name") n end) refl
      (lookup-field_if_other k (codes "full_name") n end refl)

pub lookup-full_name : (e n : Option Json) → lookup (codes "full_name") (name_fields e n) ≡ n
unfolding ◌===◌ lookup
lookup-full_name e n =
    let k = codes "full_name" in
    rw (lookup-field_if_other k (codes "email") e (field_if k n end) refl)
      (lookup-field_if_same k k n end refl refl)

pub lookup-full_name_camel :
    (e n : Option Json) → lookup (codes "fullName") (name_fields e n) ≡ none
unfolding ◌===◌ lookup
lookup-full_name_camel e n =
    let k = codes "fullName" in
    rw (lookup-field_if_other k (codes "email") e (field_if (codes "full_name") n end) refl)
      (lookup-field_if_other k (codes "full_name") n end refl)
