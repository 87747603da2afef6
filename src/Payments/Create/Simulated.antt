-- ===== src/Payments/Create/Simulated.antt =====
-- What a whole `POST` of apps/web/app/api/[version]/payments/route.ts does in live mode with a Paymob or Fawry
-- payment when the gateway cannot be reached.
use mathlib.Core.List.{Memᴰ}
use mathlib.Core.List.Memᴰ
use openwrapper.Prelude.{
  arith, ◌≡◌, refl, sym, subst, ℕ, true, false, Option, some, ◌++◌, inl, inr, Bool-cases,
}
use openwrapper.Js.Text.{Text, codes, ◌===◌, ===_iff}
use openwrapper.Store.{World, PaymentRow}
use openwrapper.Store.Handler.{next}
use openwrapper.Ledger.Idempotency.{absent}
use openwrapper.Ledger.Persist.{new_row}
use openwrapper.Ledger.Replay.{IsFresh}
use openwrapper.Gateway.Bridge.{refused, is_unreachable}
use openwrapper.Payments.Api.{Env, Request}
use openwrapper.Payments.Create.Admit.{Admitted, admit}
use openwrapper.Payments.Create.Gateway.{gateway_url, asked}
use openwrapper.Payments.Create.Replay.{lookup_in}
use openwrapper.Payments.Create.Route.{simulate, own_id}
use openwrapper.Payments.Create.Post.{check_credentials, create_input, post}
use openwrapper.Payments.Create.Idempotence.{post_creates}
use openwrapper.Payments.Create.Fallback.{is_egyptian, route-live_unreachable}

-- A live payment that is pending under a reference that the web service made up.
abbrev pub IsMadeUp : Text → Text → PaymentRow → Type 0
IsMadeUp id provider q =
    (q.id ≡ id)
    × (q.provider ≡ provider)
    × (q.environment ≡ codes "live")
    × (q.status ≡ codes "pending")
    × (q.provider_reference ≡ some (provider ++ codes "_sim_" ++ id))

module _ (env : Env) (r : Request) (a : Admitted) where
  payment_id-simulate : (simulate env r a).payment_id ≡ own_id env r a
  unfolding simulate
  payment_id-simulate = elim (Bool-cases (a.input.provider === codes "fawry")) [
    | inl fawry ↦ rw fawry refl
    | inr other ↦ rw other refl
  ]

  status-simulate : (simulate env r a).status ≡ codes "pending"
  unfolding simulate
  status-simulate = elim (Bool-cases (a.input.provider === codes "fawry")) [
    | inl fawry ↦ rw fawry refl
    | inr other ↦ rw other refl
  ]

  provider_reference-simulate :
      is_egyptian a.input.provider ≡ true
      → (simulate env r a).provider_reference
        ≡ some (a.input.provider ++ codes "_sim_" ++ own_id env r a)
  unfolding simulate
  provider_reference-simulate egyptian = elim (Bool-cases (a.input.provider === codes "fawry")) [
    | inl fawry ↦
        let e : a.input.provider ≡ codes "fawry" =
          (===_iff a.input.provider (codes "fawry")).0 fawry in
        rw e refl
    | inr other ↦
        let e : a.input.provider ≡ codes "paymob" =
          (===_iff a.input.provider (codes "paymob")).0 (ground arith) in
        rw e refl
  ]

  -- In live mode, with a gateway that is configured and cannot be reached, a new Paymob or Fawry payment
  -- is not refused: the `POST` is answered 201, and what it has stored is a live, pending payment whose
  -- reference is the provider's name, "_sim_" and the random id. The request is
  -- admitted, its idempotency key is not used yet, its credentials pass, the database works and the
  -- random id is new.
  pub post-live_unreachable :
      (w : World) (url : Text) (status : ℕ) (error : Text) (code : Option Text)
      → admit env r w ≡ next a w
      → lookup_in env a w ≡ absent
      → check_credentials env r a w ≡ next tt w
      → is_egyptian a.input.provider ≡ true
      → a.is_test ≡ false
      → gateway_url env ≡ some url
      → asked env r a ≡ refused status error code
      → is_unreachable code ≡ true
      → env.persist_fails ≡ false
      → IsFresh (own_id env r a) w.payments
      → let (response, w') = post env r w in
        (response.status ≡ 201)
        × ((q : PaymentRow) × Memᴰ q w'.payments × IsMadeUp (own_id env r a) a.input.provider q)
  post-live_unreachable w url status error code admitted unused allowed egyptian live configured
        answer gone up fresh =
      let d = simulate env r a in
      let routed =
        route-live_unreachable env r a w url status error code egyptian live configured answer
          gone in
      let run =
        post_creates env r a d w admitted unused allowed routed up
          (subst (λ id. IsFresh id w.payments) (sym payment_id-simulate) fresh) in
      let row = new_row (create_input env a d) env.now in
      rw run (
        refl,
        (
          row,
          Memᴰ.append_right w.payments (Memᴰ.head refl),
          (
            payment_id-simulate,
            refl,
            rw live refl,
            status-simulate,
            provider_reference-simulate egyptian,
          ),
        ),
      )
