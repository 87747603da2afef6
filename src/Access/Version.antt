-- ===== src/Access/Version.antt =====
-- apps/web/lib/api-version.ts
use openwrapper.Prelude.{not, ◌||◌, List, [], ◌∷◌, if◌then◌else◌}
use openwrapper.Js.Text.{Text, codes, to_lower, trim, truthy, member}

abbrev pub supported_api_versions : List Text
supported_api_versions = codes "v1" ∷ codes "v2" ∷ codes "v3" ∷ []

-- `valid: true` with the normalised version, or the 400 response `unsupported_api_version`.
pub data VersionCheck : Type 0 where
  valid : Text → VersionCheck
  unsupported : Text → VersionCheck

unfoldable pub validate_api_version : Text → VersionCheck
unfolding to_lower trim member
validate_api_version raw =
    let normalized = trim (to_lower raw) in
    if not (truthy normalized) || not (member supported_api_versions normalized)
    then unsupported raw
    else valid normalized
