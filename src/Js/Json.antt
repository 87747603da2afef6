-- ===== src/Js/Json.antt =====
-- A value that `JSON.parse` gives. A number that is not a natural number is kept as the text that
-- `String` makes of it. Of two fields with one name `JSON.parse` keeps the last; here names differ.
use openwrapper.Prelude.{
  ℕ, Bool, true, false, not, Option, none, some, [], ◌∷◌, ◌++◌, if◌then◌else◌, ◌==◌,
}
use openwrapper.Js.Text.{Text, codes, ◌===◌, truthy}
use openwrapper.Js.Decimal.{show}

mutual
  pub data Json : Type 0 where
    null : Json
    bool : Bool → Json
    int : ℕ → Json
    num : Text → Json
    str : Text → Json
    arr : Elems → Json
    obj : Fields → Json

  pub data Elems : Type 0 where
    nil : Elems
    cons : Json → Elems → Elems

  pub data Fields : Type 0 where
    end : Fields
    field : Text → Json → Fields → Fields

unfoldable pub lookup : Text → Fields → Option Json
unfolding ◌===◌
lookup k end = none
lookup k (field j v fs) = if j === k then some v else lookup k fs

-- `v[k]` for a value that is not null; `none` is undefined.
unfoldable pub get : Json → Text → Option Json
unfolding lookup
get (obj fs) k = lookup k fs
get _ k = none

-- A value, or undefined, as a condition.
abbrev pub truthy_json : Json → Bool
truthy_json null = false
truthy_json (bool b) = b
truthy_json (int n) = not (n == 0)
truthy_json (num s) = not (s === codes "-0")
truthy_json (str s) = truthy s
truthy_json (arr _) = true
truthy_json (obj _) = true

abbrev pub truthy_field : Option Json → Bool
truthy_field none = false
truthy_field (some v) = truthy_json v

infixr 30 ◌or_field◌
abbrev pub ◌or_field◌ : Option Json → Option Json → Option Json
a or_field b = if truthy_field a then a else b

-- `String(v)`; an array is its items joined by commas, with nothing for null.
unfoldable mutual
  unfolding show

  pub to_string : Json → Text
  to_string null = codes "null"
  to_string (bool b) = if b then codes "true" else codes "false"
  to_string (int n) = show n
  to_string (num s) = s
  to_string (str s) = s
  to_string (arr nil) = []
  to_string (arr (cons v vs)) = item v ++ items vs
  to_string (obj _) = codes "[object Object]"

  pub item : Json → Text
  item null = []
  item (bool b) = if b then codes "true" else codes "false"
  item (int n) = show n
  item (num s) = s
  item (str s) = s
  item (arr nil) = []
  item (arr (cons v vs)) = item v ++ items vs
  item (obj _) = codes "[object Object]"

  pub items : Elems → Text
  items nil = []
  items (cons v vs) = b',' ∷ (item v ++ items vs)

-- `String(a || "")`, where `a` may be undefined.
unfoldable pub string_or_empty : Option Json → Text
unfolding to_string
string_or_empty none = []
string_or_empty (some v) = if truthy_json v then to_string v else []
