-- ===== src/Access/Bodies.antt =====
-- How much of a request body `readLimitedTextBody` of apps/web/lib/request-body-reader.ts takes.
use openwrapper.Prelude.{
  Bool-cases, ◌∙◌, append_assoc, length-append, append-nil, none, ap, true, some, ℕ, ◌+◌, ◌≡◌, List,
  [], ◌∷◌, ◌++◌, arith, leb, length, if◌then◌else◌,
}
use openwrapper.Js.Text.{Text, concat}
use openwrapper.Access.BodyReader.{decoded, body_ok, too_large, read_chunks, read_limited_text_body}

read_chunks_eq :
    (max total : ℕ) (read : List ℕ) (chunks : List (List ℕ))
    → length read ≡ total
    → leb total max ≡ true
    → read_chunks max total read chunks
      ≡ (if leb (total + length (concat chunks)) max then some (read ++ concat chunks) else none)
unfolding read_chunks concat
read_chunks_eq max total read [] e small = ground (arith, append-nil read)
read_chunks_eq max total read (c ∷ chunks) e small = ground (
  arith,
  read_chunks_eq max (total + length c) (read ++ c) chunks,
  length-append read c,
  append_assoc read c (concat chunks),
  length-append c (concat chunks),
)

-- A body is accepted exactly when all its chunks together are at most `max` bytes, however they are
-- cut, and is then the decoding of all of them in order.
pub read_limited_text_body_eq :
    (decode : List ℕ → Text) (max : ℕ) (chunks : List (List ℕ))
    → read_limited_text_body decode max (some chunks)
      ≡ (if leb (length (concat chunks)) max then body_ok (decode (concat chunks)) else too_large)
unfolding read_limited_text_body
read_limited_text_body_eq decode max chunks =
    ap (decoded decode) (read_chunks_eq max 0 [] chunks (cc) (ground arith))
    ∙ ground (arith, Bool-cases (leb (length (concat chunks)) max))
