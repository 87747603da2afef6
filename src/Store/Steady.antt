-- ===== src/Store/Steady.antt =====
-- Handlers that read at most the API keys before they go on, and handlers that leave the payments
-- alone.
use openwrapper.Prelude.{◌≡◌, refl, sym, ◌∙◌, ap}
use openwrapper.Store.{World}
use openwrapper.Store.Handler.{Step, next, reply, raise, Handler, ◌>>=◌, pure, final}

module _ {R : Type 0} where
  -- Where the handler goes on, it has changed nothing, and it goes on in the same way from every
  -- state with the same API keys.
  abbrev pub IsSteady : {A : Type 0} → Handler R A → Type 0
  IsSteady {A} m =
      (w : World) (a : A) (w' : World)
      → m w ≡ next a w'
      → (w' ≡ w) × ((v : World) → v.api_keys ≡ w.api_keys → m v ≡ next a v)

  pub bind-IsSteady :
      {A B : Type 0} (m : Handler R A) (f : A → Handler R B)
      → IsSteady m
      → ((a : A) → IsSteady (f a))
      → IsSteady (m >>= f)
  bind-IsSteady {A} {B} m f sm sf w b w' h = go (m w) refl h
    where
      go :
          (s : Step R A)
          → m w ≡ s
          → (◌>>=◌ (λ (_ : World). s) f) w ≡ next b w'
          → (w' ≡ w) × ((v : World) → v.api_keys ≡ w.api_keys → (m >>= f) v ≡ next b v)
      go (next a u) e h' =
          let (same, again) = sm w a u e in
          let (same', again') = sf a u b w' h' in
          (
            same' ∙ same,
            λ v keys.
                ap (λ (s : Step R A). (◌>>=◌ (λ (_ : World). s) f) v) (again v keys)
                ∙ again' v (keys ∙ ap (λ (x : World). x.api_keys) (sym same)),
          )
      go (reply r u) e h' = cc
      go (raise u) e h' = cc

  pub pure-IsSteady : {A : Type 0} (x : A) → IsSteady (pure x)
  pure-IsSteady x w a w' h = ((cc), λ v keys. (cc))

  -- The payments are as they were, however the handler ends.
  abbrev pub IsQuiet : {A : Type 0} → Handler R A → Type 0
  IsQuiet m = (w : World) → (final (m w)).payments ≡ w.payments

  pub bind-IsQuiet :
      {A B : Type 0} (m : Handler R A) (f : A → Handler R B)
      → IsQuiet m
      → ((a : A) → IsQuiet (f a))
      → IsQuiet (m >>= f)
  bind-IsQuiet {A} {B} m f qm qf w = go (m w) (qm w)
    where
      go :
          (s : Step R A)
          → (final s).payments ≡ w.payments
          → (final ((◌>>=◌ (λ (_ : World). s) f) w)).payments ≡ w.payments
      go (next a u) e = qf a u ∙ e
      go (reply r u) e = e
      go (raise u) e = e
