-- ===== src/Console/Schema.antt =====
-- The parts of zod that the schemas of the console use: trimmed texts with bounds, and words of a list.
use openwrapper.Prelude.{ℕ, Bool, ◌&&◌, Option, none, some, List, leb, length, if◌then◌else◌}
use openwrapper.Js.Text.{Text, trim, member}
use openwrapper.Js.Json.{Json, str}

infixl 5 ◌>>=◌ ◌>>◌
abbrev pub ◌>>=◌ : {A B : Type 0} → Option A → (A → Option B) → Option B
none >>= f = none
some a >>= f = f a

abbrev pub ◌>>◌ : {A B : Type 0} → Option A → Option B → Option B
m >> k = m >>= λ _. k

-- `z.string().trim()` with a test of the trimmed text.
abbrev pub trimmed : (Text → Bool) → Json → Option Text
trimmed good (str s) = if good (trim s) then some (trim s) else none
trimmed good _ = none

abbrev pub between : ℕ → ℕ → Text → Bool
between low high s = leb low (length s) && leb (length s) high

-- `z.enum(words)`
abbrev pub one_of : List Text → Json → Option Text
one_of words (str s) = if member words s then some s else none
one_of words _ = none

-- `.optional()`
abbrev pub optional : {A : Type 0} → (Json → Option A) → Option Json → Option (Option A)
optional p none = some none
optional p (some v) = do a ← p v; some (some a)

abbrev pub required : {A : Type 0} → (Json → Option A) → Option Json → Option A
required p none = none
required p (some v) = p v
