-- ===== src/Webhooks/Terminal.antt =====
-- The webhooks keep every payment that has ended as it ended (invariant I13), whatever is delivered
-- and in whatever order.
use openwrapper.Prelude.{subst, ◌≡◌, inl, inr, sym, ◌∙◌, Bool-cases}
use openwrapper.Js.Text.{codes, ◌===◌, to_lower, trim, Text}
use openwrapper.Store.{World}
use openwrapper.Store.Handler.{raise, reply, next, Step, ◌>>=◌, Handler, final}
use openwrapper.Ledger.Terminal.{Keeps-trans, HasDistinctIds, Distinct}
use openwrapper.Webhooks.Shared.{HookEnv, HookRequest, HookReply}
use openwrapper.Webhooks.Fawry.{verify_fawry, fawry_webhook}
use openwrapper.Webhooks.Paymob.{verify_paymob, paymob_webhook}
use openwrapper.Webhooks.Stripe.{verify_stripe, stripe_webhook}
use openwrapper.Access.Version.{VersionCheck, valid, unsupported, validate_api_version}
use openwrapper.Webhooks.Dispatch.{dispatch_provider, dispatch_version, webhook}
use openwrapper.Webhooks.Mock.{verify_mock, mock_webhook}
use openwrapper.Webhooks.Applied.{
  Preserves, Preserves-refl, verify_fawry-final, verify_paymob-final, verify_stripe-final,
  verify_mock-final, apply_fawry-Preserves, apply_paymob-Preserves, apply_stripe-Preserves,
  apply_mock-Preserves,
}

-- A handler that verifies without writing, and then runs `k`.
after_verify :
    {A : Type 0} (w : World) (m : Handler HookReply A) (k : A → Handler HookReply HookReply)
    → final (m w) ≡ w
    → ((a : A) → Preserves w (final (k a w)))
    → Preserves w (final ((m >>= k) w))
after_verify {A} w m k e h = go (m w) e
  where
    go : (s : Step HookReply A) → final s ≡ w → Preserves w (final ((◌>>=◌ (λ (_ : World). s) k) w))
    go (next a w') e' = subst (λ (v : World). Preserves w (final (k a v))) (sym e') (h a)
    go (reply x w') e' = subst (Preserves w) (sym e') (Preserves-refl w)
    go (raise w') e' = subst (Preserves w) (sym e') (Preserves-refl w)

fawry_webhook-Preserves :
    (env : HookEnv) (r : HookRequest) (w : World)
    → HasDistinctIds w.payments
    → Preserves w (final (fawry_webhook env r w))
unfolding fawry_webhook
fawry_webhook-Preserves env r w d =
    after_verify w (verify_fawry env r) _ (verify_fawry-final env r w) λ p.
      elim (Bool-cases env.db_fails) [
        | inl down ↦ rw down (Preserves-refl w)
        | inr up ↦ rw up (apply_fawry-Preserves env w d p)
      ]

paymob_webhook-Preserves :
    (env : HookEnv) (r : HookRequest) (w : World)
    → HasDistinctIds w.payments
    → Preserves w (final (paymob_webhook env r w))
unfolding paymob_webhook
paymob_webhook-Preserves env r w d =
    after_verify w (verify_paymob env r) _ (verify_paymob-final env r w) λ e.
      elim (Bool-cases env.db_fails) [
        | inl down ↦ rw down (Preserves-refl w)
        | inr up ↦ rw up (apply_paymob-Preserves env w d e)
      ]

stripe_webhook-Preserves :
    (env : HookEnv) (r : HookRequest) (w : World)
    → HasDistinctIds w.payments
    → Preserves w (final (stripe_webhook env r w))
unfolding stripe_webhook
stripe_webhook-Preserves env r w d =
    after_verify w (verify_stripe env r) _ (verify_stripe-final env r w) λ e.
      elim (Bool-cases env.db_fails) [
        | inl down ↦ rw down (Preserves-refl w)
        | inr up ↦ rw up (apply_stripe-Preserves env w d e)
      ]

mock_webhook-Preserves :
    (env : HookEnv) (r : HookRequest) (w : World)
    → HasDistinctIds w.payments
    → Preserves w (final (mock_webhook env r w))
unfolding mock_webhook
mock_webhook-Preserves env r w d =
    after_verify w (verify_mock env r) _ (verify_mock-final env r w) λ e.
      elim (Bool-cases env.db_fails) [
        | inl down ↦ rw down (Preserves-refl w)
        | inr up ↦ rw up (apply_mock-Preserves env w d e)
      ]

dispatch_provider-Preserves :
    (env : HookEnv) (provider : Text) (r : HookRequest) (w : World)
    → HasDistinctIds w.payments
    → Preserves w (final (dispatch_provider env provider r w))
unfolding dispatch_provider
dispatch_provider-Preserves env provider r w d =
    let name = trim (to_lower provider) in
    elim (Bool-cases (name === codes "fawry")) [
      | inl e ↦ rw e (fawry_webhook-Preserves env r w d)
      | inr e ↦ rw e (elim (Bool-cases (name === codes "paymob")) [
        | inl e' ↦ rw e' (paymob_webhook-Preserves env r w d)
        | inr e' ↦ rw e' (elim (Bool-cases (name === codes "stripe")) [
          | inl f ↦ rw f (stripe_webhook-Preserves env r w d)
          | inr f ↦ rw f (elim (Bool-cases (name === codes "mock")) [
            | inl f' ↦ rw f' (mock_webhook-Preserves env r w d)
            | inr f' ↦ rw f' (Preserves-refl w)
          ])
        ])
      ])
    ]

-- One delivery to the endpoint of a version and a provider, in any surroundings.
pub data Delivery (w : World) : World → Type 1 where
  delivered :
      (env : HookEnv) (version provider : Text) (r : HookRequest)
      → Delivery w (final (webhook env version provider r w))

pub data Deliveries (w : World) : World → Type 1 where
  start : Deliveries w w
  then_one : {w' w'' : World} → Deliveries w w' → Delivery w' w'' → Deliveries w w''

webhook-Preserves :
    (env : HookEnv) (version provider : Text) (r : HookRequest) (w : World)
    → HasDistinctIds w.payments
    → Preserves w (final (webhook env version provider r w))
unfolding webhook
webhook-Preserves env version provider r w d = go (validate_api_version version)
  where
    go : (v : VersionCheck) → Preserves w (final (dispatch_version env v provider r w))
    go (unsupported raw) = Preserves-refl w
    go (valid v) = dispatch_provider-Preserves env provider r w d

-- Whatever webhooks arrive, at whatever endpoints and in whatever order, signed or not: every payment
-- whose status was "succeeded" or "failed" has that status still, and no payment id changes. The ids
-- of the table are distinct to begin with.
pub Deliveries-Preserve :
    {w w' : World} → HasDistinctIds w.payments → Deliveries w w' → Preserves w w'
Deliveries-Preserve {w} d start = Preserves-refl w
Deliveries-Preserve {w} d (then_one {w' = v} ds (delivered env version provider r)) =
    let (kept, same_ids) = Deliveries-Preserve d ds in
    let (kept', same_ids') =
      webhook-Preserves env version provider r v (subst Distinct (sym same_ids) d) in
    (Keeps-trans w.payments v.payments _ kept kept', same_ids' ∙ same_ids)
