-- ===== src/Payments/Create/Fallback.antt =====
-- Where a Paymob or Fawry payment comes from in live mode: the branch of
-- apps/web/app/api/[version]/payments/route.ts that falls back to the simulation.
use openwrapper.Prelude.{
  inr, inl, Option-cases, Bool-cases, sym, none, ◌≢◌, ◌≡◌, refl, ◌∙◌, ap, Bool, true, false, ◌||◌,
  Option, some, ℕ, arith,
}
use openwrapper.Js.Text.{Text, codes, ◌===◌}
use openwrapper.Store.{World}
use openwrapper.Store.Handler.{Step, next, ◌>>=◌}
use openwrapper.Gateway.Bridge.{GatewayResult, refused, is_unreachable}
use openwrapper.Payments.Api.{Env, Request, ApiResponse}
use openwrapper.Payments.Create.Admit.{Admitted}
use openwrapper.Payments.Create.Gateway.{
  routed_of, is_blank, Routed, gateway_url, asked, take_known_result, if_configured,
}
use openwrapper.Payments.Create.Route.{
  simulate, route_paymob_fawry, route, fall_back, simulate_or_refuse,
}

abbrev pub is_egyptian : Text → Bool
is_egyptian provider = provider === codes "paymob" || provider === codes "fawry"

module _ (env : Env) (r : Request) (a : Admitted) where
  route-egyptian :
      (w : World)
      → is_egyptian a.input.provider ≡ true
      → route env r a w ≡ route_paymob_fawry env r a w
  unfolding route
  route-egyptian w e = rw e refl

  -- The rest of the branch, after the gateway was asked.
  abbrev after_gateway : World → Step ApiResponse (Option Routed) → Step ApiResponse Routed
  after_gateway w s = (◌>>=◌ (λ (_ : World). s) (fall_back env r a (simulate_or_refuse env r a))) w

  route_paymob_fawry-configured :
      (w : World) (url : Text)
      → gateway_url env ≡ some url
      → route_paymob_fawry env r a w ≡ after_gateway w (take_known_result env r a (asked env r a) w)
  unfolding route_paymob_fawry
  route_paymob_fawry-configured w url e =
      ap
        (λ o.
          after_gateway w (if_configured env r a o (take_known_result env r a (asked env r a)) w))
        e

  simulate_or_refuse-configured :
      (w : World) (url : Text)
      → gateway_url env ≡ some url
      → simulate_or_refuse env r a w ≡ next (simulate env r a) w
  simulate_or_refuse-configured w url e = ground arith

  -- In live mode, with a gateway that is configured and cannot be reached, a Paymob or Fawry payment
  -- is simulated: the request goes on with a made-up reference or kiosk code, and no error is given.
  pub route-live_unreachable :
      (w : World) (url : Text) (status : ℕ) (error : Text) (code : Option Text)
      → is_egyptian a.input.provider ≡ true
      → a.is_test ≡ false
      → gateway_url env ≡ some url
      → asked env r a ≡ refused status error code
      → is_unreachable code ≡ true
      → route env r a w ≡ next (simulate env r a) w
  route-live_unreachable w url status error code egyptian live configured answer gone =
      route-egyptian w egyptian
      ∙ route_paymob_fawry-configured w url configured
      ∙ ap (λ g. after_gateway w (take_known_result env r a g w)) answer
      ∙ rw gone (simulate_or_refuse-configured w url configured)

  -- Where the variables of an accepted payment come from.
  abbrev pub IsSourced : GatewayResult → Routed → Type 0
  IsSourced (GatewayResult.ok p) d = (is_blank env r a p ≡ false) × (d ≡ routed_of env p)
  IsSourced (refused status error code) d = (is_unreachable code ≡ true) × (d ≡ simulate env r a)

  next_value :
      (x d : Routed) (w w' : World)
      → ◌≡◌ {A = Step ApiResponse Routed} (next x w) (next d w')
      → d ≡ x
  next_value x d w w' h = cc

  module _ (w w' : World) (d : Routed) (url : Text) (live : a.is_test ≡ false)
      (configured : gateway_url env ≡ some url) where
    sourced :
        (g : GatewayResult)
        → after_gateway w (take_known_result env r a g w) ≡ next d w'
        → IsSourced g d
    sourced (GatewayResult.ok p) h = elim (Bool-cases (is_blank env r a p)) [
      | inl blank ↦ (let e = rw (blank, live) at h in cc)
      | inr filled ↦ (filled, next_value (routed_of env p) d w w' (rw filled at h))
    ]
    sourced (refused status error code) h = elim (Bool-cases (is_unreachable code)) [
      | inl gone ↦ (
        gone,
        next_value (simulate env r a) d w w'
            (sym (simulate_or_refuse-configured w url configured) ∙ (rw gone at h)),
      )
      | inr there ↦ (let e = rw there at h in cc)
    ]

  without_gateway :
      (w w' : World) (d : Routed)
      → a.is_test ≡ false
      → gateway_url env ≡ none
      → route_paymob_fawry env r a w ≢ next d w'
  unfolding route_paymob_fawry
  without_gateway w w' d live e h = ground arith

  -- In live mode a Paymob or Fawry payment goes on only with a configured gateway, and then with what
  -- the gateway answered, which names something to pay by or has a known status; or with the
  -- simulation, if the gateway could not be reached.
  pub route-live :
      (w w' : World) (d : Routed)
      → is_egyptian a.input.provider ≡ true
      → a.is_test ≡ false
      → route env r a w ≡ next d w'
      → (gateway_url env ≢ none) × IsSourced (asked env r a) d
  route-live w w' d egyptian live h =
      let in_branch = sym (route-egyptian w egyptian) ∙ h in
      elim (Option-cases (gateway_url env)) [
        | inl none_set ↦ absurd (without_gateway w w' d live none_set in_branch)
        | inr (url, configured) ↦ (
          (λ e. let clash = sym configured ∙ e in cc),
          sourced w w' d url live configured (asked env r a)
              (sym (route_paymob_fawry-configured w url configured) ∙ in_branch),
        )
      ]
