-- ===== src/Js/Text.antt =====
-- A JavaScript string as the list of its UTF-16 code units, and the methods that the sources call.
-- Case mapping is that of ASCII: a letter outside it is left as it is.
pub mod Laws
use Prim.Native.Char.{code}
use Prim.Native.String.{String}
use openwrapper.Prelude.{
  inr, sym, inl, Bool-cases, ℕ, suc, zero, ◌+◌, ◌-◌, ◌≤◌, ◌≡◌, refl, ap₂, ◌↔◌, Bool, true, false,
  not, ◌&&◌, ◌||◌, Option, none, some, List, [], ◌∷◌, ◌++◌, map, reverse, arith, ltb, leb, ◌==◌,
  ==_iff, if◌then◌else◌, length, take, drop, keep, any,
}

abbrev pub Text : Type 0
Text = List ℕ

-- The code units of a literal, which is ASCII throughout.
abbrev pub codes : String → Text
codes String.[] = []
codes (String.◌∷◌ c s) = code c ∷ codes s

infix 50 ◌===◌
unfoldable pub ◌===◌ : Text → Text → Bool
[] === [] = true
[] === (_ ∷ _) = false
(_ ∷ _) === [] = false
(a ∷ s) === (b ∷ t) = a == b && (s === t)

pub ===_refl : (s : Text) → (s === s) ≡ true
unfolding ◌===◌
===_refl [] = refl
===_refl (a ∷ s) = ground (arith, ===_refl s)

eq_of_=== : (s t : Text) → (s === t) ≡ true → s ≡ t
unfolding ◌===◌
eq_of_=== [] [] h = refl
eq_of_=== [] (_ ∷ _) h = cc
eq_of_=== (_ ∷ _) [] h = cc
eq_of_=== (a ∷ s) (b ∷ t) h = ground (arith, eq_of_=== s t)

-- A test of two texts decides their equality.
pub ===_iff : (s t : Text) → ((s === t) ≡ true) ↔ (s ≡ t)
===_iff s t = (eq_of_=== s t, λ e. ground (arith, ===_refl s))

pub ===_ne_symm : (s t : Text) → (s === t) ≡ false → (t === s) ≡ false
===_ne_symm s t h = elim (Bool-cases (t === s)) [
  | inl same ↦ let e : s ≡ t = sym (eq_of_=== t s same) in ground (arith, ===_refl t)
  | inr other ↦ other
]

-- `Boolean(s)`: only the empty text is falsy.
abbrev pub truthy : Text → Bool
truthy [] = false
truthy (_ ∷ _) = true

-- A `string | null | undefined`, as a condition and under `||`.
abbrev pub present : Option Text → Bool
present none = false
present (some s) = truthy s

infixr 30 ◌or◌
abbrev pub ◌or◌ : Option Text → Option Text → Option Text
a or b = if present a then a else b

-- `a || b` where `b` is a text.
abbrev pub or_text : Option Text → Text → Text
or_text none b = b
or_text (some []) b = b
or_text (some (c ∷ s)) b = c ∷ s

-- `a ?? b` where `b` is a text.
abbrev pub or_default {ℓ} : {A : Type ℓ} → Option A → A → A
or_default none b = b
or_default (some a) b = a

-- `s === t` where `s` may be null or undefined and `t` is a text.
abbrev pub is_text : Option Text → Text → Bool
is_text none t = false
is_text (some s) t = s === t

abbrev pub lower : ℕ → ℕ
lower c = if leb b'A' c && leb c b'Z' then c + 32 else c

abbrev pub upper : ℕ → ℕ
upper c = if leb b'a' c && leb c b'z' then c - 32 else c

unfoldable pub to_lower : Text → Text
to_lower [] = []
to_lower (c ∷ s) = lower c ∷ to_lower s

unfoldable pub to_upper : Text → Text
to_upper [] = []
to_upper (c ∷ s) = upper c ∷ to_upper s

-- White space and line terminators of ECMAScript, for `trim` and `\s`.
unfoldable pub is_space : ℕ → Bool
is_space c =
    (leb 9 c && leb c 13)
    || c == 32
    || c == 0xA0
    || c == 0x1680
    || (leb 0x2000 c && leb c 0x200A)
    || c == 0x2028
    || c == 0x2029
    || c == 0x202F
    || c == 0x205F
    || c == 0x3000
    || c == 0xFEFF

unfoldable pub trim_start : Text → Text
unfolding is_space
trim_start [] = []
trim_start (c ∷ s) = if is_space c then trim_start s else c ∷ s

unfoldable pub trim_end : Text → Text
unfolding trim_start
trim_end s = reverse (trim_start (reverse s))

unfoldable pub trim : Text → Text
unfolding trim_start trim_end
trim s = trim_end (trim_start s)

-- `.trim()` behind `?.`
abbrev pub trim_opt : Option Text → Option Text
trim_opt none = none
trim_opt (some s) = some (trim s)

abbrev pub lower_opt : Option Text → Option Text
lower_opt none = none
lower_opt (some s) = some (to_lower s)

-- `s.startsWith(p)`
unfoldable pub starts_with : Text → Text → Bool
starts_with s [] = true
starts_with [] (_ ∷ _) = false
starts_with (a ∷ s) (b ∷ p) = a == b && starts_with s p

-- `s.endsWith(p)`
unfoldable pub ends_with : Text → Text → Bool
unfolding starts_with
ends_with s p = starts_with (reverse s) (reverse p)

-- `s.includes(p)`
unfoldable pub includes : Text → Text → Bool
unfolding starts_with
includes [] p = starts_with [] p
includes (c ∷ s) p = starts_with (c ∷ s) p || includes s p

-- `s.slice(-n)` for `n > 0`.
abbrev pub slice_last : ℕ → Text → Text
slice_last n s = drop (length s - n) s

-- `s.replace(/\/+$/, "")`
drop_slashes : Text → Text
drop_slashes [] = []
drop_slashes (c ∷ s) = if c == b'/' then drop_slashes s else c ∷ s

unfoldable pub strip_slashes : Text → Text
unfolding drop_slashes
strip_slashes s = reverse (drop_slashes (reverse s))

-- `s.split(sep)` for a separator of one code unit: the piece before the first separator is given
-- in reverse, as the loop has read it.
split_from : ℕ → Text → Text → List Text
split_from sep cur [] = reverse cur ∷ []
split_from sep cur (c ∷ s) = elim (c == sep) [
  | true ↦ reverse cur ∷ split_from sep [] s
  | false ↦ split_from sep (c ∷ cur) s
]

unfoldable pub split : ℕ → Text → List Text
unfolding split_from
split sep s = split_from sep [] s

-- `xs.join("")`
unfoldable pub concat : List Text → Text
concat [] = []
concat (s ∷ r) = s ++ concat r

-- `process.env.X.split(",").map(trim).filter(Boolean)`
unfoldable pub split_list : Text → List Text
unfolding split trim keep
split_list s = keep truthy (map trim (split b',' s))

-- `xs.includes(s)` for a list of texts.
unfoldable pub member : List Text → Text → Bool
unfolding any
member xs s = any (λ x. x === s) xs
