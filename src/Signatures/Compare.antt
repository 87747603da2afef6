-- ===== src/Signatures/Compare.antt =====
-- `constantTimeEqHex` of apps/web/lib/cryptographic-signatures.ts
use openwrapper.Prelude.{Bool, false, ◌==◌, if◌then◌else◌, length}
use openwrapper.Js.Text.{Text, ◌===◌, to_lower}

-- `timingSafeEqual(a, b)` on buffers of one length is their equality; the texts are hex digests, so
-- a code unit is a byte.
unfoldable pub constant_time_eq_hex : Text → Text → Bool
unfolding to_lower ◌===◌
constant_time_eq_hex expected received =
    let a = to_lower expected in
    let b = to_lower received in if length a == length b then a === b else false
