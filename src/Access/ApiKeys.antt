-- ===== src/Access/ApiKeys.antt =====
-- apps/web/lib/api-key-service.ts. SHA-256 in hex and the random secret are arguments.
use openwrapper.Prelude.{Bool, ◌||◌, ◌++◌, if◌then◌else◌, take}
use openwrapper.Js.Text.{Text, codes, ◌===◌, to_lower, trim, starts_with, slice_last}
use openwrapper.Store.{Mode, live, test, mode_text}

unfoldable pub hash_api_key : (Text → Text) → Text → Text
unfolding trim
hash_api_key sha256 key = sha256 (trim key)

abbrev pub is_test_name : Text → Bool
is_test_name s =
    starts_with s (codes "ow_test")
    || s === codes "ow_test_sandbox_demo"
    || s === codes "ow_demo_sandbox_key"

unfoldable pub get_api_key_environment : Text → Mode
unfolding trim to_lower starts_with ◌===◌
get_api_key_environment key = if is_test_name (to_lower (trim key)) then test else live

pub record IssuedKey : Type 0 where
  pub key : Text
  pub environment : Mode
  pub key_hash : Text
  pub prefix : Text
  pub last_four : Text

abbrev pub key_of : Mode → Text → Text
key_of env secret = codes "ow_" ++ mode_text env ++ codes "_" ++ secret

unfoldable pub issue_api_key : (Text → Text) → Text → Mode → IssuedKey
unfolding hash_api_key
issue_api_key sha256 secret env =
    let key = key_of env secret in
    record {
      key = key;
      environment = env;
      key_hash = hash_api_key sha256 key;
      prefix = take 12 key;
      last_four = slice_last 4 key;
    }
