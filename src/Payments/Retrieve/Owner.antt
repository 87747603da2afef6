-- ===== src/Payments/Retrieve/Owner.antt =====
use mathlib.Core.List.{Memᴰ}
use openwrapper.Prelude.{◌≡◌, refl, sym, ◌∙◌, ap, subst, Option, none, some}
use openwrapper.Js.Text.{codes, Text}
use openwrapper.Store.{World, PaymentRow}
use openwrapper.Store.Handler.{gets, Step, next, reply, raise, Handler, ◌>>=◌, final}
use openwrapper.Access.Version.{validate_api_version}
use openwrapper.Access.Authenticator.{AuthKey}
use openwrapper.Payments.Create.Admit.{checked_version, require_key, authenticate}
use openwrapper.Payments.Retrieve.{
  retrieve, read_payment, require_id, find_payment, refresh, is_payment_id, details_of,
}
use openwrapper.Payments.Api.{details, Env, Request, ApiResponse}
use openwrapper.Payments.Retrieve.{
  require_key, require_id, read_payment, AuthKey, find_payment, StripeSession, Current, refresh,
}
use openwrapper.Payments.Retrieve.Reads.{
  work_on, show_payment, serve_found, serve_key, serve_known, serve, find_payment_sound,
  read_payment_sound, read_payment-final, checked_version-final, require_key-final,
  require_id-final,
}

module _ {A B : Type 0} (m : Handler ApiResponse A) (f : A → Handler ApiResponse B) where
  -- A run of two handlers that goes on went on in both.
  pub bind-next :
      (w w' : World) (b : B)
      → (m >>= f) w ≡ next b w'
      → (a : A) × (v : World) × (m w ≡ next a v) × (f a v ≡ next b w')
  bind-next w w' b h = go (m w) refl h
    where
      go :
          (s : Step ApiResponse A)
          → m w ≡ s
          → (◌>>=◌ (λ (_ : World). s) f) w ≡ next b w'
          → (a : A) × (v : World) × (m w ≡ next a v) × (f a v ≡ next b w')
      go (next a v) e h' = (a, v, e, h')
      go (reply x v) e h' = cc
      go (raise v) e h' = cc

  pub bind-next_still :
      (w w' : World) (b : B)
      → final (m w) ≡ w
      → (m >>= f) w ≡ next b w'
      → (a : A) × (m w ≡ next a w) × (f a w ≡ next b w')
  bind-next_still w w' b still h =
      let (a, v, e, k) = bind-next w w' b h in
      let same : v ≡ w = ap final (sym e) ∙ still in
      (a, e ∙ ap (next a) same, subst (λ (u : World). f a u ≡ next b w') same k)

module _ (env : Env) (retrieve_session : Text → Text → Option StripeSession) (id : Text)
    (r : Request) where
  -- What an answer with a payment shows.
  abbrev pub IsOwn : World → ApiResponse → Type 0
  IsOwn w response =
      (key : AuthKey) × (p : PaymentRow) × (c : Current) × (authenticate env r w ≡ some key)
      × Memᴰ p w.payments
      × (p.user_id ≡ some key.user_id)
      × (response ≡ record { status = 200; body = details (details_of p c) })

  pub required_key :
      (message : Text) (known : Option AuthKey) (key : AuthKey) (w w' : World)
      → require_key env message known w ≡ next key w'
      → known ≡ some key
  required_key message none key w w' h = cc
  required_key message (some k) key w w' h = cc

  shown_of :
      (version : Text) (key : AuthKey) (p : PaymentRow) (w w' : World) (response : ApiResponse)
      → work_on env retrieve_session id r version key p w ≡ next response w'
      → (c : Current) × (response ≡ record { status = 200; body = details (details_of p c) })
  shown_of version key p w w' response h =
      let (c, v, e, k) =
        bind-next (refresh env retrieve_session r version id p)
          (show_payment env retrieve_session id r version key p) w w' response h in
      (c, (cc))

  found-IsOwn :
      (version : Text) (key : AuthKey) (o : Option PaymentRow) (w w' : World)
      (response : ApiResponse)
      → authenticate env r w ≡ some key
      → o ≡ find_payment env retrieve_session key.user_id id w
      → serve_found env retrieve_session id r version key o w ≡ next response w'
      → IsOwn w response
  found-IsOwn version key none w w' response known e h = cc
  found-IsOwn version key (some p) w w' response known e h =
      let (m, own) = find_payment_sound env retrieve_session key.user_id id w p (sym e) in
      let (c, same) = shown_of version key p w w' response h in (key, p, c, known, m, own, same)

  -- An answer that shows a payment shows one that is stored under the user of the key that
  -- authenticated the request, and has status 200; no key of another user ever sees it.
  pub retrieve-IsOwn :
      (w w' : World) (response : ApiResponse)
      → retrieve env retrieve_session id r w ≡ next response w'
      → IsOwn w response
  unfolding retrieve
  retrieve-IsOwn w w' response h =
      let (version, e1, h1) =
        bind-next_still (checked_version env (validate_api_version r.version))
          (serve env retrieve_session id r) w w' response
          (checked_version-final env retrieve_session _ w) h in
      let (known, e2, h2) =
        bind-next_still (gets (authenticate env r)) (serve_known env retrieve_session id r version)
          w w' response refl h1 in
      let (key, e3, h3) =
        bind-next_still (require_key env (codes "Missing or invalid API key.") known)
          (serve_key env retrieve_session id r version) w w' response
          (require_key-final env retrieve_session _ known w) h2 in
      let (_, e4, h4) =
        bind-next_still (require_id env retrieve_session (is_payment_id id))
          (λ _.
            read_payment env retrieve_session key id
            >>= serve_found env retrieve_session id r version key)
          w w' response (require_id-final env retrieve_session _ w) h3 in
      let (o, e5, h5) =
        bind-next_still (read_payment env retrieve_session key id)
          (serve_found env retrieve_session id r version key) w w' response
          (read_payment-final env retrieve_session key id w) h4 in
      let same : authenticate env r w ≡ known = cc in
      found-IsOwn version key o w w' response (same ∙ required_key _ known key w w e3)
        (read_payment_sound env retrieve_session key id w w o e5).0 h5
