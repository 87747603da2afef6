-- ===== src/Webhooks/Dispatch.antt =====
-- apps/web/app/api/[version]/webhooks/[provider]/route.ts
use openwrapper.Prelude.{◌++◌, if◌then◌else◌}
use openwrapper.Js.Text.{Text, codes, ◌===◌, to_lower, trim}
use openwrapper.Store.Handler.{Handler}
use openwrapper.Access.Version.{VersionCheck, valid, unsupported, validate_api_version}
use openwrapper.Webhooks.Shared.{HookEnv, HookRequest, HookReply, reject}
use openwrapper.Webhooks.Fawry.{fawry_webhook}
use openwrapper.Webhooks.Paymob.{paymob_webhook}
use openwrapper.Webhooks.Stripe.{stripe_webhook}
use openwrapper.Webhooks.Mock.{mock_webhook}

module _ (env : HookEnv) where
  unfoldable pub dispatch_provider : Text → HookRequest → Handler HookReply HookReply
  unfolding ◌===◌ to_lower trim
  dispatch_provider provider r =
      let name = trim (to_lower provider) in
      if name === codes "fawry"
      then fawry_webhook env r
      else if name === codes "paymob"
      then paymob_webhook env r
      else if name === codes "stripe"
      then stripe_webhook env r
      else if name === codes "mock"
      then mock_webhook env r
      else reject 400 (
          codes "Webhook provider '"
          ++ provider
          ++ codes "' is not supported. Valid providers: paymob, fawry, stripe, mock.")

  abbrev pub dispatch_version : VersionCheck → Text → HookRequest → Handler HookReply HookReply
  dispatch_version (unsupported raw) provider r =
      reject 400 (
        codes "API version '" ++ raw ++ codes "' is not supported. Supported versions: v1, v2, v3.")
  dispatch_version (valid _) provider r = dispatch_provider provider r

  unfoldable pub webhook : Text → Text → HookRequest → Handler HookReply HookReply
  unfolding validate_api_version
  webhook version provider r = dispatch_version (validate_api_version version) provider r
