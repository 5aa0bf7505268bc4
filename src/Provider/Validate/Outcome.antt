-- ===== src/Provider/Validate/Outcome.antt =====
-- When `ValidatePayment` finds a voucher valid, and what it does to the sessions.
use text.Mathlib.Text.{◌==◌ as str_eq}
use substreams_data_service.Common.{◌≡◌, refl, ap, some, true, false, not, inl, inr, arith}
use substreams_data_service.Common.Dict.{lookup, insert}
use substreams_data_service.Common.Go.{ok, panic, err_if, >>=-eq-ok, >>-eq-ok, Go-cases}
use substreams_data_service.Common.Action.{◌>>=◌, ◌>>◌, pure, lift, gets, modify}
use substreams_data_service.Horizon.Types.{Address, Rav, SignedRav}
use substreams_data_service.Horizon.EthGo.{EthGo}
use substreams_data_service.Sidecar.Convert.{proto_signed_rav_to_horizon, addresses_equal}
use substreams_data_service.Sidecar.Session.{Session, set_rav, set_pricing_config}
use substreams_data_service.Sidecar.Manager.Frame.{on_session-found}
use substreams_data_service.Provider.State.{
  ProviderSidecar, Env, is_accepted_signer, verify_rav_signature, get_escrow_balance,
}
use substreams_data_service.Provider.Messages.{
  Reason, ConnectError, ValidatePaymentRequest, ValidatePaymentResponse,
}
use substreams_data_service.Provider.Signers.{require_message, require_signer}
use substreams_data_service.Provider.Signers.Exact.{
  sidecar_addresses_equal_iff, require_message-eq, require_message-ok, require_signer-ok,
  require_signer-eq,
}
use substreams_data_service.Provider.Validate.{
  invalid, balance_field, validate_checks, validate_result, validate_body, validate_payment,
  get_or_create,
}

-- The session with the voucher and the prices.
abbrev pub paid : ProviderSidecar → Env → SignedRav → Session → Session
paid sc env rav s = set_pricing_config (some sc.pricing_config) (set_rav (some rav) env.now s)

-- Whether or not the balance can be read, the session is changed.
validate_body-paid :
    (sc : ProviderSidecar) (env : Env) (req : ValidatePaymentRequest) (rav : SignedRav) (m : Rav)
    (s : Session)
    → (validate_body sc env req (rav, m) s).1 ≡ paid sc env rav s
unfolding validate_body ◌>>=◌ ◌>>◌ pure lift gets modify
validate_body-paid sc env req rav m s =
    elim (Go-cases (balance_field {E = ConnectError} (get_escrow_balance sc m.payer))) [
      | inl (b, e) ↦ rw e refl
      | inr (inl (x, e)) ↦ rw e refl
      | inr (inr e) ↦ rw e refl
    ]

module _ (eth : EthGo) where
  -- What `ValidatePayment` asks of the voucher `rav` with the message `m`.
  pub record IsPayable (sc : ProviderSidecar) (req : ValidatePaymentRequest) (rav : SignedRav)
      (m : Rav) : Type 0 where
    pub given :
        proto_signed_rav_to_horizon {E = ValidatePaymentResponse} req.payment_rav ≡ ok (some rav)
    pub here : rav.message ≡ some m
    pub signed :
        (signer : Address) × (verify_rav_signature eth sc rav ≡ ok signer)
        × (is_accepted_signer eth sc signer ≡ true)
    pub provider : m.service_provider ≡ sc.service_provider

  pub IsPayable-sound :
      (sc : ProviderSidecar) (req : ValidatePaymentRequest) {rav : SignedRav} {m : Rav}
      → validate_checks eth sc req ≡ ok (rav, m)
      → IsPayable sc req rav m
  unfolding validate_checks
  IsPayable-sound sc req {rav} {m} h =
      let (converted, given, h₁) = >>=-eq-ok (proto_signed_rav_to_horizon req.payment_rav) _ h in
      let ((r, n), needed, h₂) = >>=-eq-ok (require_message _ converted) _ h₁ in
      let (here, held) = require_message-ok _ converted needed in
      let (signer, known, h₃) = >>=-eq-ok (require_signer eth _ _ sc r) _ h₂ in
      let (verified, accepted) = require_signer-ok eth _ _ sc r known in
      let (provider, h₄) =
        >>-eq-ok (err_if (not (addresses_equal n.service_provider sc.service_provider)) _) _ h₃ in
      let same : ◌≡◌ {A = SignedRav × Rav} (r, n) (rav, m) = ground arith in
      let same_rav : r ≡ rav = ap (λ x. x.0) same in
      let same_message : n ≡ m = ap (λ x. x.1) same in
      rw⁻¹ (same_rav, same_message)
        (record {
          given = ground (arith, given, here);
          here = held;
          signed = (signer, verified, accepted);
          provider =
              ground (arith, sidecar_addresses_equal_iff n.service_provider sc.service_provider);
        })

  pub IsPayable-complete :
      (sc : ProviderSidecar) (req : ValidatePaymentRequest) (rav : SignedRav) (m : Rav)
      → IsPayable sc req rav m
      → validate_checks eth sc req ≡ ok (rav, m)
  unfolding validate_checks
  IsPayable-complete sc req rav m a =
      let (signer, verified, accepted) = a.signed in
      let provider =
        (sidecar_addresses_equal_iff m.service_provider sc.service_provider).1 a.provider in
      let held = require_message-eq (invalid Reason.invalid_or_missing_rav) rav a.here in
      let known =
        require_signer-eq eth (λ e. invalid (Reason.signature_verification_failed e))
          (λ b. invalid (Reason.signer_not_authorized b)) sc rav verified accepted in
      rw (a.given, held, known, provider) refl

  -- For the identifier of a session that exists, a voucher that is payable to the provider
  -- replaces the session's voucher, whatever the session's payer, state and voucher are, and the
  -- provider's prices become the session's; nothing else of the sidecar changes.
  pub validate_payment_replaces :
      (sc : ProviderSidecar) (env : Env) (req : ValidatePaymentRequest) {s : Session}
      {rav : SignedRav} {m : Rav}
      → str_eq req.client_session_id "" ≡ false
      → lookup req.client_session_id sc.sessions.sessions ≡ some s
      → IsPayable sc req rav m
      → (validate_payment eth sc env req).1 ≡ record sc {
        sessions = record {
          sessions = insert req.client_session_id (paid sc env rav s) sc.sessions.sessions;
        };
      }
  unfolding validate_payment validate_result get_or_create
  validate_payment_replaces sc env req {s} {rav} {m} named there a =
      rw
        (
          IsPayable-complete sc req rav m a,
          named,
          there,
          on_session-found req.client_session_id panic (validate_body sc env req (rav, m))
              sc.sessions there,
          validate_body-paid sc env req rav m s,
        )
        refl

  -- If no voucher is payable, the sidecar is as it was.
  pub validate_payment_keeps :
      (sc : ProviderSidecar) (env : Env) (req : ValidatePaymentRequest)
      → ¬ ((rav : SignedRav) × (m : Rav) × IsPayable sc req rav m)
      → (validate_payment eth sc env req).1 ≡ sc
  unfolding validate_payment validate_result
  validate_payment_keeps sc env req refused = elim (Go-cases (validate_checks eth sc req)) [
    | inl ((rav, m), e) ↦ absurd (refused (rav, m, IsPayable-sound sc req e))
    | inr (inl (x, e)) ↦ rw e refl
    | inr (inr e) ↦ rw e refl
  ]
