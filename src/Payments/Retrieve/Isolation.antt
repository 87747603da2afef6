-- ===== src/Payments/Retrieve/Isolation.antt =====
-- Who may read a payment, and what reading it may change
-- (apps/web/app/api/[version]/payments/[id]/route.ts).
use mathlib.Core.List.{Memᴰ}
use openwrapper.Prelude.{
  ◌≡◌, refl, sym, ◌∙◌, ap, subst, true, false, ◌||◌, Option, none, some, List, [], ◌∷◌, arith, inl,
  inr, Bool-cases, if◌then◌else◌,
}
use openwrapper.Js.Text.{Text, codes, ◌===◌, ===_iff, ===_refl}
use openwrapper.Store.{World, PaymentRow, update_where}
use openwrapper.Store.Handler.{Step, next, reply, raise, Handler, ◌>>=◌, final}
use openwrapper.Gateway.Bridge.{GatewayResult, ok, refused}
use openwrapper.Ledger.Persist.{has_id}
use openwrapper.Ledger.Status.{is_terminal}
use openwrapper.Ledger.Terminal.{
  Keeps-trans, HasDistinctIds, Distinct, ids, update_where-Keeps, ids-update_where,
}
use openwrapper.Webhooks.Applied.{Preserves, Preserves-refl}
use openwrapper.Payments.Api.{Env, Request, ApiResponse}
use openwrapper.Payments.Retrieve.{
  StripeSession, Current, current_of, merged, write_current, write_resolved, is_open, set_payments,
  asked, is_changed, take_gateway, asks_stripe, settled, take_stripe, refresh,
}

-- A payment whose status is open has not ended.
open_status :
    (s : Text) → (s === codes "unknown" || s === codes "pending") ≡ true → is_terminal s ≡ false
unfolding is_terminal ◌===◌
open_status s h = elim (Bool-cases (s === codes "unknown")) [
  | inl e ↦ rw ((===_iff s (codes "unknown")).0 e) refl
  | inr e ↦ rw ((===_iff s (codes "pending")).0 (rw e at h)) refl
]

is_open_lem : (p : PaymentRow) → is_open p ≡ true → is_terminal p.status ≡ false
unfolding is_open
is_open_lem p h = open_status p.status (ground arith)

-- An updated row is where the row was.
mem-update_where :
    (set : PaymentRow → PaymentRow) (p : PaymentRow) (rows : List PaymentRow)
    → Memᴰ p rows
    → Memᴰ (set p) (update_where (has_id p.id) set rows)
unfolding update_where
mem-update_where set p (x ∷ rows) (Memᴰ.head e) = Memᴰ.head (
    subst (λ (q : PaymentRow). set p ≡ (if has_id p.id q then set q else q)) e
      (rw (===_refl p.id) refl))
mem-update_where set p (x ∷ rows) (Memᴰ.tail m) = Memᴰ.tail (mem-update_where set p rows m)
mem-update_where set p [] m = elim m [ ]

-- Updating the one payment that has not ended.
update-Preserves :
    (w : World) (p : PaymentRow) (set : PaymentRow → PaymentRow)
    → HasDistinctIds w.payments
    → Memᴰ p w.payments
    → is_terminal p.status ≡ false
    → ((x : PaymentRow) → (set x).id ≡ x.id)
    → Preserves w (set_payments p.id set w)
update-Preserves w p set d m active same_id = (
  update_where-Keeps set w.payments m d same_id (λ ended. let clash = sym active ∙ ended in cc),
  ids-update_where (has_id p.id) set w.payments same_id,
)

Preserves-trans : (w w' w'' : World) → Preserves w w' → Preserves w' w'' → Preserves w w''
Preserves-trans w w' w'' (k, i) (k', i') =
    (Keeps-trans w.payments w'.payments w''.payments k k', i' ∙ i)

pub bind-Preserves :
    {A B : Type 0} (m : Handler ApiResponse A) (f : A → Handler ApiResponse B) (w : World)
    → Preserves w (final (m w))
    → ((a : A) (w' : World) → m w ≡ next a w' → Preserves w' (final (f a w')))
    → Preserves w (final ((m >>= f) w))
bind-Preserves {A} m f w h k = go (m w) h (λ a w' e. k a w' e)
  where
    go :
        (s : Step ApiResponse A)
        → Preserves w (final s)
        → ((a : A) (w' : World) → s ≡ next a w' → Preserves w' (final (f a w')))
        → Preserves w (final ((◌>>=◌ (λ (_ : World). s) f) w))
    go (next a w') h' k' = Preserves-trans w w' (final (f a w')) h' (k' a w' refl)
    go (reply x w') h' k' = h'
    go (raise w') h' k' = h'

next_inj :
    {A : Type 0} {a b : A} {v w : World}
    → ◌≡◌ {A = Step ApiResponse A} (next a v) (next b w)
    → (a ≡ b) × (v ≡ w)
next_inj h = ((cc), (cc))

module _ (env : Env) (retrieve_session : Text → Text → Option StripeSession) where
  -- The row that is worked on after the gateway was asked, open or not.
  abbrev IsAt : PaymentRow → Current → World → Type 0
  IsAt p c w = (q : PaymentRow) × Memᴰ q w.payments × (q.id ≡ p.id) × (q.status ≡ c.status)

  settled-Preserves :
      (p : PaymentRow) (c : Current) (o : Option Text) (w : World)
      → HasDistinctIds w.payments
      → IsAt p c w
      → is_terminal c.status ≡ false
      → Preserves w (final (settled env retrieve_session p c o w))
  settled-Preserves p c none w d at_row active = Preserves-refl w
  settled-Preserves p c (some status) w d (q, m, same_id, same_status) active =
      subst (λ (id : Text). Preserves w (set_payments id (write_resolved env.now status) w)) same_id
        (update-Preserves w q (write_resolved env.now status) d m
          (ap is_terminal same_status ∙ active) (λ x. refl))

  take_stripe-Preserves :
      (r : Request) (p : PaymentRow) (c : Current) (w : World)
      → HasDistinctIds w.payments
      → IsAt p c w
      → Preserves w (final (take_stripe env retrieve_session r p c w))
  unfolding take_stripe
  take_stripe-Preserves r p c w d at_row =
      elim (Bool-cases (asks_stripe env retrieve_session r p c)) [
        | inl asks ↦ rw asks (
            settled-Preserves p c _ w d at_row (
              open_status c.status
                (let e : (c.status === codes "pending") ≡ true = ground arith in ground arith)))
        | inr skips ↦ rw skips (Preserves-refl w)
      ]

  -- After the gateway was asked, the row is there with the status that was taken over.
  take_gateway-IsAt :
      (p : PaymentRow) (g : GatewayResult) (w w' : World) (c : Current)
      → Memᴰ p w.payments
      → take_gateway env retrieve_session p g w ≡ next c w'
      → IsAt p c w'
  unfolding take_gateway
  take_gateway-IsAt p (refused status error code) w w' c m h =
      let same_world : w ≡ w' = cc in
      let same : current_of p ≡ c = cc in
      subst (λ (v : World). IsAt p c v) same_world (p, m, refl, ap (λ (x : Current). x.status) same)
  take_gateway-IsAt p (ok d) w w' c m h =
      elim (Bool-cases (is_changed env retrieve_session p (merged p d))) [
        | inl changed ↦
            let e : ◌≡◌ {A = Step ApiResponse Current}
                (next (merged p d) (set_payments p.id (write_current env.now (merged p d)) w))
                (next c w') =
              rw changed at h in
            let (same, same_world) = next_inj e in
            subst (λ (v : World). IsAt p c v) same_world
              (
                write_current env.now (merged p d) p,
                mem-update_where (write_current env.now (merged p d)) p w.payments m,
                refl,
                ap (λ (x : Current). x.status) same,
              )
        | inr unchanged ↦
            let e : ◌≡◌ {A = Step ApiResponse Current} (next (merged p d) w) (next c w') =
              rw unchanged at h in
            let (same, same_world) = next_inj e in
            let kept : (d.status === p.status) ≡ true = ground arith in
            subst (λ (v : World). IsAt p c v) same_world
              (
                p,
                m,
                refl,
                sym ((===_iff d.status p.status).0 kept) ∙ ap (λ (x : Current). x.status) same,
              )
      ]

  take_gateway-Preserves :
      (p : PaymentRow) (g : GatewayResult) (w : World)
      → HasDistinctIds w.payments
      → Memᴰ p w.payments
      → is_terminal p.status ≡ false
      → Preserves w (final (take_gateway env retrieve_session p g w))
  unfolding take_gateway
  take_gateway-Preserves p (refused status error code) w d m active = Preserves-refl w
  take_gateway-Preserves p (ok g) w d m active =
      elim (Bool-cases (is_changed env retrieve_session p (merged p g))) [
        | inl changed ↦
            rw changed
              (update-Preserves w p (write_current env.now (merged p g)) d m active (λ x. refl))
        | inr same ↦ rw same (Preserves-refl w)
      ]

  pub refresh-Preserves :
      (r : Request) (version id : Text) (p : PaymentRow) (w : World)
      → HasDistinctIds w.payments
      → Memᴰ p w.payments
      → Preserves w (final (refresh env retrieve_session r version id p w))
  unfolding refresh
  refresh-Preserves r version id p w d m = elim (Bool-cases (is_open p)) [
    | inr closed ↦ rw closed (Preserves-refl w)
    | inl opened ↦
        let g = asked env retrieve_session r version id in
        let kept = take_gateway-Preserves p g w d m (is_open_lem p opened) in
        rw opened (
          bind-Preserves (take_gateway env retrieve_session p g)
            (take_stripe env retrieve_session r p) w kept
            λ c w' e.
              take_stripe-Preserves r p c w'
                (subst Distinct
                  (sym (
                    ap (λ (s : Step ApiResponse Current). ids (final s).payments) (sym e) ∙ kept.1))
                  d)
                (take_gateway-IsAt p g w w' c m e))
  ]
