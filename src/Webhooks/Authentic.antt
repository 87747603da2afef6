-- ===== src/Webhooks/Authentic.antt =====
-- What the webhooks of Fawry and Paymob do only on a signature that verifies.
use openwrapper.Prelude.{
  ap, Bool-cases, Bool, ◌≢◌, if◌then◌else◌, ◌≡◌, refl, true, some, arith, Option-cases, inl, inr,
}
use openwrapper.Js.Text.{truthy, Text}
use openwrapper.Js.Json.{Json}
use openwrapper.Store.{World}
use openwrapper.Store.Handler.{
  reply, Step, ◌>>=◌, modify, raise, modify, raise, Handler, final, next,
}
use openwrapper.Signatures.Rails.{
  FawryConfig, PaymobConfig, get_fawry_config, get_paymob_config, verify_fawry_webhook_signature,
  verify_paymob_hmac,
}
use openwrapper.Access.BodyReader.{BodyText, body_ok, too_large, read_limited_text_body}
use openwrapper.Store.Handler.{pure, ◌>>◌}
use openwrapper.Webhooks.Fawry.{
  read_payload, apply_fawry, fawry_webhook, apply_fawry, fawry_webhook,
}
use openwrapper.Webhooks.Applied.{verify_fawry-final, verify_paymob-final}
use openwrapper.Webhooks.Shared.{HookReply, max_hook_body, HookEnv, HookRequest}
use openwrapper.Webhooks.Fawry.{FawryPayload, verify_fawry}
use openwrapper.Webhooks.Paymob.{
  apply_paymob, paymob_webhook, PaymobEvent, read_event, verify_paymob, given_hmac,
}

-- The payload is read off the body of the request, and the signature it carries is there and is that
-- of its own fields under the configured secure key.
abbrev pub IsSignedByFawry : HookEnv → HookRequest → FawryPayload → Type 0
IsSignedByFawry env r p =
    (text : Text) × (value : Json) × (c : FawryConfig) × (read_limited_text_body env.decode
        max_hook_body r.body
      ≡ body_ok text)
    × (env.parse_json text ≡ some value)
    × (p ≡ read_payload value)
    × (get_fawry_config env.vars ≡ some c)
    × (truthy p.signature ≡ true)
    × (verify_fawry_webhook_signature env.sha256 p.fields c.secure_key p.signature ≡ true)

-- The checks after the body is parsed.
fawry_parsed :
    (env : HookEnv) (r : HookRequest) (w w' : World) (p : FawryPayload) (text : Text) (value : Json)
    → read_limited_text_body env.decode max_hook_body r.body ≡ body_ok text
    → env.parse_json text ≡ some value
    → verify_fawry env r w ≡ next p w'
    → IsSignedByFawry env r p × (w' ≡ w)
unfolding verify_fawry
fawry_parsed env r w w' p text value body parsed h =
    elim (Option-cases (get_fawry_config env.vars)) [
      | inl missing ↦ ground arith
      | inr (c, configured) ↦
          let same : p ≡ read_payload value = ground arith in
          let filled : truthy (read_payload value).signature ≡ true = ground arith in
          let signed : verify_fawry_webhook_signature env.sha256 (read_payload value).fields
                c.secure_key (read_payload value).signature
              ≡ true =
            ground arith in
          (
            (text, value, c, body, parsed, same, configured, rw same filled, rw same signed),
            ground arith,
          )
    ]

verify_fawry_sound :
    (env : HookEnv) (r : HookRequest) (w w' : World) (p : FawryPayload)
    → verify_fawry env r w ≡ next p w'
    → IsSignedByFawry env r p × (w' ≡ w)
unfolding verify_fawry
verify_fawry_sound env r w w' p h = go (read_limited_text_body env.decode max_hook_body r.body) refl
  where
    go :
        (b : BodyText)
        → read_limited_text_body env.decode max_hook_body r.body ≡ b
        → IsSignedByFawry env r p × (w' ≡ w)
    go too_large b = ground arith
    go (body_ok text) b = elim (Option-cases (env.parse_json text)) [
      | inl bad ↦ ground arith
      | inr (value, parsed) ↦ fawry_parsed env r w w' p text value b parsed h
    ]

-- The event is read off the body of the request, and the HMAC that the request gives is that of the
-- same body under the configured secret.
abbrev pub IsSignedByPaymob : HookEnv → HookRequest → PaymobEvent → Type 0
IsSignedByPaymob env r e =
    (text : Text) × (payload : Json) × (hmac : Text) × (c : PaymobConfig) × (read_limited_text_body
        env.decode max_hook_body r.body
      ≡ body_ok text)
    × (env.parse_json text ≡ some payload)
    × (e ≡ read_event payload)
    × (get_paymob_config env.vars ≡ some c)
    × (given_hmac env r payload ≡ some hmac)
    × (verify_paymob_hmac env.hmac_sha512 payload hmac c.hmac_secret ≡ true)

-- The checks after the body is parsed.
paymob_parsed :
    (env : HookEnv) (r : HookRequest) (w w' : World) (e : PaymobEvent) (text : Text)
    (payload : Json)
    → read_limited_text_body env.decode max_hook_body r.body ≡ body_ok text
    → env.parse_json text ≡ some payload
    → verify_paymob env r w ≡ next e w'
    → IsSignedByPaymob env r e × (w' ≡ w)
unfolding verify_paymob
paymob_parsed env r w w' e text payload body parsed h =
    elim (Option-cases (get_paymob_config env.vars)) [
      | inl missing ↦ ground arith
      | inr (c, configured) ↦ elim (Option-cases (given_hmac env r payload)) [
        | inl absent ↦ ground arith
        | inr (hmac, given) ↦ (
          (text, payload, hmac, c, body, parsed, ground arith, configured, given, ground arith),
          ground arith,
        )
      ]
    ]

verify_paymob_sound :
    (env : HookEnv) (r : HookRequest) (w w' : World) (e : PaymobEvent)
    → verify_paymob env r w ≡ next e w'
    → IsSignedByPaymob env r e × (w' ≡ w)
unfolding verify_paymob
verify_paymob_sound env r w w' e h =
    go (read_limited_text_body env.decode max_hook_body r.body) refl
  where
    go :
        (b : BodyText)
        → read_limited_text_body env.decode max_hook_body r.body ≡ b
        → IsSignedByPaymob env r e × (w' ≡ w)
    go too_large b = ground arith
    go (body_ok text) b = elim (Option-cases (env.parse_json text)) [
      | inl bad ↦ ground arith
      | inr (payload, parsed) ↦ paymob_parsed env r w w' e text payload b parsed h
    ]

module _ {E : Type 0} (IsSigned : E → Type 0) (m : Handler HookReply E) (w : World) (down : Bool)
    (apply : E → World → World) (reply_to : E → HookReply) where
  abbrev write : E → Handler HookReply HookReply
  write e = (if down then (λ v. raise v) else modify (apply e)) >> pure (reply_to e)

  -- A handler that verifies, then writes, writes only on what it verified.
  written :
      final (m w) ≡ w
      → ((e : E) (w' : World) → m w ≡ next e w' → IsSigned e × (w' ≡ w))
      → final ((m >>= write) w) ≢ w
      → (e : E) × IsSigned e × (final ((m >>= write) w) ≡ apply e w)
  written quiet sound = go (m w) quiet (λ e w' h. sound e w' h)
    where
      go :
          (s : Step HookReply E)
          → final s ≡ w
          → ((e : E) (w' : World) → s ≡ next e w' → IsSigned e × (w' ≡ w))
          → final ((◌>>=◌ (λ (_ : World). s) write) w) ≢ w
          → (e : E) × IsSigned e × (final ((◌>>=◌ (λ (_ : World). s) write) w) ≡ apply e w)
      go (next e w') q h c =
          let (signed, same) = h e w' refl in
          elim (Bool-cases down) [
            | inl broken ↦ absurd (c (rw broken same))
            | inr up ↦ (e, signed, rw up (ap (apply e) same))
          ]
      go (reply x w') q h c = absurd (c q)
      go (raise w') q h c = absurd (c q)

-- A webhook of Fawry that changes anything in the database has a body with a signature that verifies
-- for the fields of that same body under the configured key, and what it changes is what those fields
-- say.
pub fawry_webhook-authentic :
    (env : HookEnv) (r : HookRequest) (w : World)
    → final (fawry_webhook env r w) ≢ w
    → (p : FawryPayload) × IsSignedByFawry env r p
      × (final (fawry_webhook env r w) ≡ apply_fawry env p w)
unfolding fawry_webhook
fawry_webhook-authentic env r w =
    written (IsSignedByFawry env r) (verify_fawry env r) w env.db_fails (apply_fawry env) _
      (verify_fawry-final env r w) (λ p w' h. verify_fawry_sound env r w w' p h)

-- A webhook of Paymob that changes anything in the database gives an HMAC that verifies for its own
-- body under the configured secret, and what it changes is what the transaction in that body says.
pub paymob_webhook-authentic :
    (env : HookEnv) (r : HookRequest) (w : World)
    → final (paymob_webhook env r w) ≢ w
    → (e : PaymobEvent) × IsSignedByPaymob env r e
      × (final (paymob_webhook env r w) ≡ apply_paymob env e w)
unfolding paymob_webhook
paymob_webhook-authentic env r w =
    written (IsSignedByPaymob env r) (verify_paymob env r) w env.db_fails (apply_paymob env) _
      (verify_paymob-final env r w) (λ e w' h. verify_paymob_sound env r w w' e h)
