-- ===== src/Platform/Origin.antt =====
-- apps/web/lib/public-origin-resolver.ts. `new URL` is an argument: the protocol and the origin of a URL.
use openwrapper.Prelude.{
  false, Bool, not, ◌&&◌, ◌||◌, Option, none, some, [], ◌∷◌, ◌++◌, if◌then◌else◌,
}
use openwrapper.Js.Text.{
  Text, codes, ◌===◌, ◌or◌, or_text, truthy, is_text, lower_opt, to_lower, trim, includes,
  starts_with, strip_slashes,
}

pub record ParsedUrl : Type 0 where
  pub protocol : Text
  pub origin : Text

abbrev hides : Text → Text → Bool
hides url word = includes (to_lower url) word

-- `isPublicHost`
unfoldable pub is_public_host : Option Text → Bool
unfolding includes to_lower
is_public_host none = false
is_public_host (some url) =
    truthy url
    && not (hides url (codes ".internal"))
    && not (hides url (codes "localhost"))
    && not (hides url (codes "127.0.0.1"))
    && not (hides url (codes "0.0.0.0"))
    && not (hides url (codes ":8080"))

-- `/^https?:\/\//i`
abbrev has_scheme : Text → Bool
has_scheme s =
    starts_with (to_lower s) (codes "http://") || starts_with (to_lower s) (codes "https://")

abbrev with_scheme : Text → Text
with_scheme s = if has_scheme s then s else codes "https://" ++ s

abbrev web_origin : Option ParsedUrl → Option Text
web_origin none = none
web_origin (some u) =
    if u.protocol === codes "http:" || u.protocol === codes "https:" then some u.origin else none

module _ (parse_url : Text → Option ParsedUrl) where
  abbrev sanitized : Text → Option Text
  sanitized trimmed = if truthy trimmed then web_origin (parse_url (with_scheme trimmed)) else none

  -- `sanitizeOrigin`
  unfoldable pub sanitize_origin : Option Text → Option Text
  unfolding trim strip_slashes starts_with to_lower ◌===◌
  sanitize_origin none = none
  sanitize_origin (some url) = if truthy url then sanitized (strip_slashes (trim url)) else none

  abbrev https_domain : Option Text → Option Text
  https_domain none = none
  https_domain (some []) = none
  https_domain (some (c ∷ s)) = some (codes "https://" ++ c ∷ s)

  abbrev is_production : (Text → Option Text) → Bool
  is_production vars = is_text (vars (codes "NODE_ENV")) (codes "production")

  abbrev env_origin : (Text → Option Text) → Option Text
  env_origin vars =
      sanitize_origin (vars (codes "NEXT_PUBLIC_APP_URL"))
      or sanitize_origin (vars (codes "BETTER_AUTH_URL"))
      or sanitize_origin (vars (codes "APP_URL"))
      or https_domain (vars (codes "RAILWAY_PUBLIC_DOMAIN"))
      or https_domain (vars (codes "VERCEL_URL"))

  abbrev fallback_origin : (Text → Option Text) → Text
  fallback_origin vars = or_text (env_origin vars) (
      if is_production vars
      then codes "https://openwrapper.muejam.com"
      else codes "http://localhost:3000")

  abbrev clean_host : Option Text → Text
  clean_host none = []
  clean_host (some host) = strip_slashes (trim host)

  abbrev scheme_of : Text → Option Text → Text
  scheme_of host proto =
      if is_text (lower_opt proto) (codes "http")
        || includes host (codes "localhost")
        || includes host (codes "127.0.0.1")
      then codes "http"
      else codes "https"

  -- `resolvePublicOrigin`
  unfoldable pub resolve_public_origin : (Text → Option Text) → Option Text → Option Text → Text
  unfolding sanitize_origin trim strip_slashes includes to_lower ◌===◌
  resolve_public_origin vars header_host proto =
      if truthy (clean_host header_host)
      then scheme_of (clean_host header_host) proto ++ (codes "://" ++ clean_host header_host)
      else fallback_origin vars

  -- `resolveGatewayOrigin`
  unfoldable pub resolve_gateway_origin : (Text → Option Text) → Text
  unfolding sanitize_origin ◌===◌
  resolve_gateway_origin vars =
      or_text
        (sanitize_origin
          (vars (codes "NEXT_PUBLIC_GATEWAY_URL") or vars (codes "GATEWAY_PUBLIC_URL")))
        (if is_production vars
          then codes "https://gateway.openwrapper.muejam.com"
          else codes "http://127.0.0.1:8080")
