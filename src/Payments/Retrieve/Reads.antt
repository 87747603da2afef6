-- ===== src/Payments/Retrieve/Reads.antt =====
use mathlib.Core.List.{Memᴰ}
use openwrapper.Prelude.{
  ◌++◌, ◌≡◌, refl, sym, ◌∙◌, ap, subst, true, false, Option, none, some, arith, inl, inr,
  Bool-cases,
}
use openwrapper.Js.Text.{codes, Text}
use openwrapper.Store.{World, PaymentRow}
use openwrapper.Store.Handler.{gets, pure, ◌>>◌, Step, next, reply, raise, Handler, ◌>>=◌, final}
use openwrapper.Ledger.Idempotency.{column_is_sound}
use openwrapper.Ledger.Terminal.{Keeps-refl, HasDistinctIds}
use openwrapper.Webhooks.Applied.{Preserves, Preserves-refl}
use openwrapper.Access.Version.{VersionCheck, valid, unsupported, validate_api_version}
use openwrapper.Access.Authenticator.{AuthKey}
use openwrapper.Payments.Create.Admit.{checked_version, require_key, authenticate}
use openwrapper.Payments.Retrieve.Isolation.{bind-Preserves, refresh-Preserves}
use openwrapper.Payments.Retrieve.{
  retrieve, read_payment, require_payment, require_id, find_payment, by_id, by_reference,
  first_of_two, refresh, is_payment_id, details_of,
}
use openwrapper.Payments.Api.{log, details, Env, Request, ApiResponse}
use openwrapper.Payments.Retrieve.{
  by_reference, first_of_two, require_key, require_id, read_payment, by_id, AuthKey, Bool,
  find_payment, StripeSession, Current, refresh,
}

module _ {A B : Type 0} where
  -- A handler that changes nothing, and then another.
  bind-still :
      (m : Handler ApiResponse A) (f : A → Handler ApiResponse B) (w : World)
      → final (m w) ≡ w
      → ((a : A) → m w ≡ next a w → Preserves w (final (f a w)))
      → Preserves w (final ((m >>= f) w))
  bind-still m f w still k = go (m w) still (λ a e. k a e)
    where
      go :
          (s : Step ApiResponse A)
          → final s ≡ w
          → ((a : A) → s ≡ next a w → Preserves w (final (f a w)))
          → Preserves w (final ((◌>>=◌ (λ (_ : World). s) f) w))
      go (next a w') e k' =
          subst (λ (v : World). Preserves w (final (f a v))) (sym e) (k' a (ap (next a) e))
      go (reply x w') e k' = subst (λ (v : World). Preserves w v) (sym e) (Preserves-refl w)
      go (raise w') e k' = subst (λ (v : World). Preserves w v) (sym e) (Preserves-refl w)

module _ (env : Env) (retrieve_session : Text → Text → Option StripeSession) where
  pub checked_version-final : (v : VersionCheck) (w : World) → final (checked_version env v w) ≡ w
  checked_version-final (valid version) w = refl
  checked_version-final (unsupported raw) w = refl

  pub require_key-final :
      (message : Text) (k : Option AuthKey) (w : World) → final (require_key env message k w) ≡ w
  require_key-final message (some key) w = refl
  require_key-final message none w = refl

  pub require_id-final : (b : Bool) (w : World) → final (require_id env retrieve_session b w) ≡ w
  require_id-final true w = refl
  require_id-final false w = refl

  -- Whichever lookup finds a payment, it is one of the caller's.
  pub find_payment_sound :
      (user id : Text) (w : World) (p : PaymentRow)
      → find_payment env retrieve_session user id w ≡ some p
      → Memᴰ p w.payments × (p.user_id ≡ some user)
  find_payment_sound user id w p h = go (by_id env retrieve_session user id w) refl h
    where
      go :
          (o : Option PaymentRow)
          → by_id env retrieve_session user id w ≡ o
          → first_of_two env retrieve_session o (by_reference env retrieve_session user id w)
            ≡ some p
          → Memᴰ p w.payments × (p.user_id ≡ some user)
      go none e h' =
          let (m, t) = env.sql.select_one_sound _ w.payments p h' in
          (m, column_is_sound p.user_id user (ground arith))
      go (some q) e h' =
          let (m, t) = env.sql.select_one_sound _ w.payments p (e ∙ h') in
          (m, column_is_sound p.user_id user (ground arith))

  pub read_payment_sound :
      (key : AuthKey) (id : Text) (w w' : World) (o : Option PaymentRow)
      → read_payment env retrieve_session key id w ≡ next o w'
      → (o ≡ find_payment env retrieve_session key.user_id id w) × (w' ≡ w)
  read_payment_sound key id w w' o h = elim (Bool-cases env.lookup_fails) [
    | inl down ↦ (let e = rw down at h in cc)
    | inr up ↦
        let e : ◌≡◌ {A = Step ApiResponse (Option PaymentRow)}
            (next (find_payment env retrieve_session key.user_id id w) w) (next o w') =
          rw up at h in
        ((cc), (cc))
  ]

  pub read_payment-final :
      (key : AuthKey) (id : Text) (w : World)
      → final (read_payment env retrieve_session key id w) ≡ w
  read_payment-final key id w = elim (Bool-cases env.lookup_fails) [
    | inl down ↦ rw down refl
    | inr up ↦ rw up refl
  ]

  module _ (id : Text) (r : Request) where
    abbrev endpoint_of : Text → Text
    endpoint_of version = codes "/api/" ++ version ++ codes "/payments/:id"

    abbrev pub show_payment :
        Text → AuthKey → PaymentRow → Current → Handler ApiResponse ApiResponse
    show_payment version key p c = do
      log env key (codes "GET") (endpoint_of version) 200 none none
      pure (record { status = 200; body = details (details_of p c) })

    abbrev pub work_on : Text → AuthKey → PaymentRow → Handler ApiResponse ApiResponse
    work_on version key p =
        refresh env retrieve_session r version id p >>= show_payment version key p

    abbrev pub serve_found : Text → AuthKey → Option PaymentRow → Handler ApiResponse ApiResponse
    serve_found version key o =
        require_payment env retrieve_session key (endpoint_of version) id o >>= work_on version key

    abbrev pub serve_key : Text → AuthKey → Handler ApiResponse ApiResponse
    serve_key version key =
        require_id env retrieve_session (is_payment_id id)
        >> (read_payment env retrieve_session key id >>= serve_found version key)

    abbrev pub serve_known : Text → Option AuthKey → Handler ApiResponse ApiResponse
    serve_known version known =
        require_key env (codes "Missing or invalid API key.") known >>= serve_key version

    abbrev pub serve : Text → Handler ApiResponse ApiResponse
    serve version = gets (authenticate env r) >>= serve_known version

    found-Preserves :
        (version : Text) (key : AuthKey) (o : Option PaymentRow) (w : World)
        → HasDistinctIds w.payments
        → ((p : PaymentRow) → o ≡ some p → Memᴰ p w.payments)
        → Preserves w (final (serve_found version key o w))
    found-Preserves version key none w d m = (Keeps-refl w.payments, refl)
    found-Preserves version key (some p) w d m =
        bind-Preserves (refresh env retrieve_session r version id p) (show_payment version key p) w
          (refresh-Preserves env retrieve_session r version id p w d (m p refl))
          λ c w' e. (Keeps-refl w'.payments, refl)

    -- Reading a payment, whatever the gateway and Stripe say, changes the status of no payment that
    -- succeeded or failed, and no payment id. The ids of the table are distinct.
    pub retrieve-Preserves :
        (w : World)
        → HasDistinctIds w.payments
        → Preserves w (final (retrieve env retrieve_session id r w))
    unfolding retrieve
    retrieve-Preserves w d =
        bind-still (checked_version env (validate_api_version r.version)) serve w
          (checked_version-final _ w)
          λ version _.
            bind-still (gets (authenticate env r)) (serve_known version) w refl λ known _.
              bind-still (require_key env (codes "Missing or invalid API key.") known)
                (serve_key version) w (require_key-final _ known w)
                λ key _.
                  bind-still (require_id env retrieve_session (is_payment_id id))
                    (λ _. read_payment env retrieve_session key id >>= serve_found version key) w
                    (require_id-final _ w)
                    λ _ _.
                      bind-still (read_payment env retrieve_session key id)
                        (serve_found version key) w (read_payment-final key id w)
                        λ o e. found-Preserves version key o w d λ p same.
                          (find_payment_sound key.user_id id w p
                            (sym (read_payment_sound key id w w o e).0 ∙ same)).0
