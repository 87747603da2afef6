-- ===== src/Js/Percent.antt =====
-- `encodeURIComponent` and the texts of `URLSearchParams`: percent encoding of the UTF-8 of a string.
use openwrapper.Prelude.{
  ◌≡◌, refl, ℕ, ◌+◌, ◌-◌, ◌*◌, ◌/◌, ◌%◌, Bool, ◌&&◌, ◌||◌, Option, none, some, List, [], ◌∷◌, ◌++◌,
  ltb, leb, ◌==◌, if◌then◌else◌,
}
use openwrapper.Js.Text.{Text, codes}

abbrev is_high : ℕ → Bool
is_high c = leb 0xD800 c && ltb c 0xDC00

abbrev is_low : ℕ → Bool
is_low c = leb 0xDC00 c && ltb c 0xE000

abbrev point_of_pair : ℕ → ℕ → ℕ
point_of_pair c d = 0x10000 + (c - 0xD800) * 0x400 + (d - 0xDC00)

abbrev single : ℕ → Option ℕ
single c = if is_high c || is_low c then none else some c

-- The code points of a string; none is a surrogate that is alone.
code_points : Text → List (Option ℕ)
code_points [] = []
code_points (c ∷ []) = single c ∷ []
code_points (c ∷ d ∷ s) =
    let rest = code_points s in
    let next = code_points (d ∷ s) in
    if is_high c && is_low d then some (point_of_pair c d) ∷ rest else single c ∷ next

abbrev utf8 : ℕ → List ℕ
utf8 p =
    if ltb p 0x80
    then p ∷ []
    else if ltb p 0x800
    then (0xC0 + p / 64) ∷ (0x80 + p % 64) ∷ []
    else if ltb p 0x10000
    then (0xE0 + p / 4_096) ∷ (0x80 + p / 64 % 64) ∷ (0x80 + p % 64) ∷ []
    else (0xF0 + p / 262_144)
      ∷ (0x80 + p / 4_096 % 64)
      ∷ (0x80 + p / 64 % 64)
      ∷ (0x80 + p % 64)
      ∷ []

abbrev hex_digit : ℕ → ℕ
hex_digit n = if ltb n 10 then b'0' + n else b'A' + (n - 10)

percent : List ℕ → Text
percent [] = []
percent (b ∷ bytes) = b'%' ∷ hex_digit (b / 16) ∷ hex_digit (b % 16) ∷ percent bytes

abbrev is_alphanumeric : ℕ → Bool
is_alphanumeric c =
    (leb b'0' c && leb c b'9') || (leb b'A' c && leb c b'Z') || (leb b'a' c && leb c b'z')

-- What `encodeURIComponent` leaves as it is.
abbrev pub is_unreserved : ℕ → Bool
is_unreserved c =
    is_alphanumeric c
    || c == b'-'
    || c == b'_'
    || c == b'.'
    || c == b'!'
    || c == b'~'
    || c == b'*'
    || c == 39
    || c == b'('
    || c == b')'

abbrev component_point : ℕ → Text
component_point p = if is_unreserved p then p ∷ [] else percent (utf8 p)

abbrev prepend : Option ℕ → Option Text → Option Text
prepend (some p) (some rest) = some (component_point p ++ rest)
prepend _ _ = none

component : List (Option ℕ) → Option Text
unfolding percent
component [] = some []
component (p ∷ ps) = prepend p (component ps)

-- `encodeURIComponent(s)`; none is a URIError.
unfoldable pub encode_uri_component : Text → Option Text
unfolding component code_points
encode_uri_component s = component (code_points s)

abbrev form_point : ℕ → Text
form_point p =
    if p == 32
    then b'+' ∷ []
    else if is_alphanumeric p || p == b'*' || p == b'-' || p == b'.' || p == b'_'
    then p ∷ []
    else percent (utf8 p)

-- A surrogate that is alone becomes the replacement character.
form : List (Option ℕ) → Text
unfolding percent
form [] = []
form (none ∷ ps) = form_point 0xFFFD ++ form ps
form (some p ∷ ps) = form_point p ++ form ps

-- A value in `new URLSearchParams().toString()`
unfoldable pub encode_form : Text → Text
unfolding form code_points
encode_form s = form (code_points s)

encode_uri_component_runs : encode_uri_component (codes "a/b é") ≡ some (codes "a%2Fb%20%C3%A9")
unfolding encode_uri_component
encode_uri_component_runs = refl
