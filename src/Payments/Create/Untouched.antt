-- ===== src/Payments/Create/Untouched.antt =====
-- Which answers of `POST` leave the payments as they were.
use openwrapper.Prelude.{
  ◌||◌, not, ◌≡◌, ◌≢◌, ◌⊎◌, inl, inr, refl, ◌∙◌, Option, none, some, ℕ, arith,
}
use openwrapper.Js.Text.{or_text, Text, codes}
use openwrapper.Store.{World, PaymentRow}
use openwrapper.Store.Handler.{Step, next, reply, raise, Handler, ◌>>=◌, pure}
use openwrapper.Js.Text.{◌===◌}
use openwrapper.Access.Credentials.{CredentialValidation, ok, missing}
use openwrapper.Ledger.Idempotency.{Lookup, absent, found, cross_tenant, failed}
use openwrapper.Ledger.Persist.{Persisted, persist_payment_record}
use openwrapper.Payments.Create.Admit.{Admitted, admit}
use openwrapper.Payments.Create.Replay.{
  stored, persist, replay, replayed, replay_input, settle, lookup_in, check_idempotency,
}
use openwrapper.Gateway.Bridge.{GatewayResult, refused, is_unreachable}
use openwrapper.Payments.Api.{StripeOutcome, session, thrown}
use openwrapper.Payments.Create.Gateway.{
  Routed, refuse, take_result, take_known_result, is_blank, if_configured, asked, gateway_url,
}
use openwrapper.Payments.Create.Route.{
  is_demo, demo_session, stripe_answer, simulate_or_refuse, stripe_locally, mock_locally, fall_back,
  take_session, is_config_error, route_paymob_fawry, route_stripe, route_mock, route,
}
use openwrapper.Payments.Create.Post.{
  create_input, created, store_payment, process, caught, post, refuse_missing, check_credentials,
}
use openwrapper.Payments.Api.{Env, Request, ApiResponse}
use openwrapper.Payments.Create.Safe.{
  Same, SafeStep, IsSafe, bind-IsSafe, pure-IsSafe, if-IsSafe, admit-IsSafe,
}

module _ (env : Env) (r : Request) (a : Admitted) where
  replay-IsSafe : (row : PaymentRow) → IsSafe (replay env a row)
  unfolding persist
  replay-IsSafe row w =
      go (persist_payment_record env.persist_fails env.now (replay_input env a row) w.payments)
    where
      go : (p : Persisted) → SafeStep w ((◌>>=◌ (λ (_ : World). stored w p) (replayed env a)) w)
      go (none, rows) = refl
      go (some attached, rows) = inl refl

  settle-IsSafe : (l : Lookup) → IsSafe (settle env a l)
  settle-IsSafe absent = λ w. refl
  settle-IsSafe failed = λ w. refl
  settle-IsSafe cross_tenant = λ w. inr refl
  settle-IsSafe (found row) =
      if-IsSafe (not (row.request_fingerprint === a.fingerprint)) _ _ (λ w. inr refl)
        (replay-IsSafe row)

  check_idempotency-IsSafe : IsSafe (check_idempotency env a)
  unfolding check_idempotency
  check_idempotency-IsSafe w = settle-IsSafe (lookup_in env a w) w

  refuse_missing-IsSafe : (v : CredentialValidation) → IsSafe (refuse_missing env a v)
  refuse_missing-IsSafe ok = pure-IsSafe tt
  refuse_missing-IsSafe (missing message) = λ w. inr refl

  check_credentials-IsSafe : IsSafe (check_credentials env r a)
  unfolding check_credentials
  check_credentials-IsSafe = refuse_missing-IsSafe _

  refuse-IsSafe :
      (status : ℕ) (error : Text) (code : Option Text) → IsSafe (refuse env r a status error code)
  refuse-IsSafe status error code = if-IsSafe (is_unreachable code) _ _ (λ w. refl) (λ w. inr refl)

  take_result-IsSafe : (g : GatewayResult) → IsSafe (take_result env r a g)
  take_result-IsSafe (GatewayResult.ok d) = λ w. refl
  take_result-IsSafe (refused status error code) = refuse-IsSafe status error code

  take_known_result-IsSafe : (g : GatewayResult) → IsSafe (take_known_result env r a g)
  take_known_result-IsSafe (GatewayResult.ok d) =
      if-IsSafe (is_blank env r a d) _ _ (if-IsSafe a.is_test _ _ (λ w. refl) (λ w. inr refl))
        (λ w. refl)
  take_known_result-IsSafe (refused status error code) = refuse-IsSafe status error code

  if_configured-IsSafe :
      (url : Option Text) (m : Handler ApiResponse (Option Routed))
      → IsSafe m
      → IsSafe (if_configured env r a url m)
  if_configured-IsSafe none m h = λ w. refl
  if_configured-IsSafe (some u) m h = h

  fall_back-IsSafe :
      (local : Handler ApiResponse Routed) (handled : Option Routed)
      → IsSafe local
      → IsSafe (fall_back env r a local handled)
  fall_back-IsSafe local none h = h
  fall_back-IsSafe local (some d) h = λ w. refl

  asked_first :
      (m : Handler ApiResponse (Option Routed)) (local : Handler ApiResponse Routed)
      → IsSafe m
      → IsSafe local
      → IsSafe (if_configured env r a (gateway_url env) m >>= fall_back env r a local)
  asked_first m local hm hl =
      bind-IsSafe _ _ (if_configured-IsSafe (gateway_url env) m hm)
        λ handled. fall_back-IsSafe local handled hl

  take_session-IsSafe : (s : StripeOutcome) → IsSafe (take_session env r a s)
  take_session-IsSafe (session id url) = λ w. refl
  take_session-IsSafe (thrown message) =
      if-IsSafe (is_config_error env r a (or_text (some message) (codes "Provider error"))) _ _
        (λ w. inr refl) (λ w. inr refl)

  simulate_or_refuse-IsSafe : IsSafe (simulate_or_refuse env r a)
  simulate_or_refuse-IsSafe w = ground arith

  stripe_locally-IsSafe : IsSafe (stripe_locally env r a)
  stripe_locally-IsSafe =
      if-IsSafe (is_demo env r a) (pure (demo_session env r a))
        (take_session env r a (stripe_answer env r a)) (pure-IsSafe (demo_session env r a))
        (take_session-IsSafe (stripe_answer env r a))

  mock_locally-IsSafe : IsSafe (mock_locally env r a)
  mock_locally-IsSafe w = ground arith

  route_paymob_fawry-IsSafe : IsSafe (route_paymob_fawry env r a)
  unfolding route_paymob_fawry
  route_paymob_fawry-IsSafe =
      asked_first _ _ (take_known_result-IsSafe (asked env r a)) simulate_or_refuse-IsSafe

  route_stripe-IsSafe : IsSafe (route_stripe env r a)
  unfolding route_stripe
  route_stripe-IsSafe = asked_first _ _ (take_result-IsSafe (asked env r a)) stripe_locally-IsSafe

  route_mock-IsSafe : IsSafe (route_mock env r a)
  unfolding route_mock
  route_mock-IsSafe = asked_first _ _ (take_result-IsSafe (asked env r a)) mock_locally-IsSafe

  route-IsSafe : IsSafe (route env r a)
  unfolding route
  route-IsSafe =
      if-IsSafe (a.input.provider === codes "paymob" || a.input.provider === codes "fawry") _ _
        route_paymob_fawry-IsSafe
        (if-IsSafe (a.input.provider === codes "stripe") _ _ route_stripe-IsSafe
          (if-IsSafe (a.input.provider === codes "mock") _ _ route_mock-IsSafe (λ w. inr refl)))

-- The end of a run: an exception leaves the payments, and so does an answer with another status.
abbrev AtEnd : World → Step ApiResponse ApiResponse → Type 0
AtEnd w (next response w') = (response.status ≡ 200) ⊎ ((response.status ≡ 201) ⊎ Same w w')
AtEnd w (reply response w') = (response.status ≡ 200) ⊎ ((response.status ≡ 201) ⊎ Same w w')
AtEnd w (raise w') = Same w w'

move_end : (w w' : World) (s : Step ApiResponse ApiResponse) → Same w w' → AtEnd w' s → AtEnd w s
move_end w w' (next a v) e (inl fine) = inl fine
move_end w w' (next a v) e (inr (inl created)) = inr (inl created)
move_end w w' (next a v) e (inr (inr h)) = inr (inr (h ∙ e))
move_end w w' (reply a v) e (inl fine) = inl fine
move_end w w' (reply a v) e (inr (inl created)) = inr (inl created)
move_end w w' (reply a v) e (inr (inr h)) = inr (inr (h ∙ e))
move_end w w' (raise v) e h = h ∙ e

bind-EndsSafe :
    {A : Type 0} (m : Handler ApiResponse A) (f : A → Handler ApiResponse ApiResponse)
    → IsSafe m
    → ((a : A) (w : World) → AtEnd w (f a w))
    → (w : World) → AtEnd w ((m >>= f) w)
bind-EndsSafe {A} m f sm sf w = go (m w) (sm w)
  where
    go : (s : Step ApiResponse A) → SafeStep w s → AtEnd w ((◌>>=◌ (λ (_ : World). s) f) w)
    go (next a v) e = move_end w v (f a v) e (sf a v)
    go (reply r v) (inl fine) = inl fine
    go (reply r v) (inr e) = inr (inr e)
    go (raise v) e = e

module _ (env : Env) (r : Request) where
  store_payment-AtEnd : (a : Admitted) (d : Routed) (w : World) → AtEnd w (store_payment env a d w)
  unfolding store_payment persist
  store_payment-AtEnd a d w =
      go (persist_payment_record env.persist_fails env.now (create_input env a d) w.payments)
    where
      go : (p : Persisted) → AtEnd w ((◌>>=◌ (λ (_ : World). stored w p) (created env a d)) w)
      go (none, rows) = refl
      go (some row, rows) = inr (inl refl)

  process-AtEnd : (a : Admitted) (w : World) → AtEnd w (process env r a w)
  unfolding process
  process-AtEnd a = bind-EndsSafe _ _ (check_idempotency-IsSafe env r a) λ _.
      bind-EndsSafe _ _ (check_credentials-IsSafe env r a)
        λ _. bind-EndsSafe _ _ (route-IsSafe env r a) λ d. store_payment-AtEnd a d

  caught-AtEnd :
      (w : World) (s : Step ApiResponse ApiResponse)
      → AtEnd w s
      → (caught env s).0.status ≢ 200
      → (caught env s).0.status ≢ 201
      → Same w (caught env s).1
  caught-AtEnd w (next response v) (inl fine) a b = absurd (a fine)
  caught-AtEnd w (next response v) (inr (inl made)) a b = absurd (b made)
  caught-AtEnd w (next response v) (inr (inr e)) a b = e
  caught-AtEnd w (reply response v) (inl fine) a b = absurd (a fine)
  caught-AtEnd w (reply response v) (inr (inl made)) a b = absurd (b made)
  caught-AtEnd w (reply response v) (inr (inr e)) a b = e
  caught-AtEnd w (raise v) e a b = e

  -- Whatever the request, the database and the gateway: a `POST` that is answered with any status but
  -- 200 and 201 leaves the table of payments as it was.
  pub post-unchanged :
      (w : World)
      → (post env r w).0.status ≢ 200
      → (post env r w).0.status ≢ 201
      → (post env r w).1.payments ≡ w.payments
  unfolding post
  post-unchanged w a b =
      caught-AtEnd w ((admit env r >>= process env r) w)
        (bind-EndsSafe (admit env r) (process env r) (admit-IsSafe env r) process-AtEnd w) a b
