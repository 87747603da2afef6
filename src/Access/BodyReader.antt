-- ===== src/Access/BodyReader.antt =====
-- apps/web/lib/request-body-reader.ts. The body arrives as chunks of bytes; the text decoder is an
-- argument.
use openwrapper.Prelude.{
  ℕ, ◌+◌, ◌*◌, ◌++◌, Option, none, some, List, [], ◌∷◌, ltb, length, if◌then◌else◌,
}
use openwrapper.Js.Text.{Text}

pub data BodyText : Type 0 where
  body_ok : Text → BodyText
  too_large : BodyText

abbrev pub default_max_body_bytes : ℕ
default_max_body_bytes = 64 * 1024

-- The loop over `reader.read()`: the total so far, and the chunks pushed so far, as one buffer.
unfoldable pub read_chunks : ℕ → ℕ → List ℕ → List (List ℕ) → Option (List ℕ)
read_chunks max_bytes total chunks [] = some chunks
read_chunks max_bytes total chunks (value ∷ rest) =
    let more = read_chunks max_bytes (total + length value) (chunks ++ value) rest in
    if ltb max_bytes (total + length value) then none else more

abbrev pub decoded : (List ℕ → Text) → Option (List ℕ) → BodyText
decoded decode none = too_large
decoded decode (some bytes) = body_ok (decode bytes)

-- `readLimitedTextBody`: no body at all is the empty text.
unfoldable pub read_limited_text_body : (List ℕ → Text) → ℕ → Option (List (List ℕ)) → BodyText
unfolding read_chunks
read_limited_text_body decode max_bytes none = body_ok []
read_limited_text_body decode max_bytes (some chunks) =
    decoded decode (read_chunks max_bytes 0 [] chunks)
