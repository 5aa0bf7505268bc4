-- ===== src/Provider/Submit/Outcome.antt =====
-- When `SubmitRAV` accepts a voucher, and what it does to the session.
use substreams_data_service.Common.{
  ◌≡◌, ◌↔◌, refl, none, some, true, not, arith, inl, inr, Option-cases,
}
use substreams_data_service.Common.Int.{ℤ, ◌≤ℤ◌}
use substreams_data_service.Common.Go.{Ptr, ok, err_if, >>=-eq-ok, >>-eq-ok}
use substreams_data_service.Horizon.Types.{Address, Rav, SignedRav, message_of}
use substreams_data_service.Horizon.EthGo.{EthGo}
use substreams_data_service.Sidecar.Convert.{proto_signed_rav_to_horizon, addresses_equal}
use substreams_data_service.Sidecar.Session.{Session, is_active}
use substreams_data_service.Provider.State.{
  ProviderSidecar, is_accepted_signer, verify_rav_signature,
}
use substreams_data_service.Provider.Messages.{Reason, SubmitRavRequest, SubmitRavResponse}
use substreams_data_service.Provider.Signers.{require_message, require_signer}
use substreams_data_service.Provider.Submit.{rejected, check_value, submit_checks}
use substreams_data_service.Provider.Signers.Exact.{
  sidecar_addresses_equal_iff, require_message-eq, require_message-ok, require_signer-ok,
  require_signer-eq,
}

-- Both values are there, and the first is at most the second.
abbrev pub IsAtMost : Ptr ℤ → Ptr ℤ → Type 0
IsAtMost (some w) (some v) = w ≤ℤ v
IsAtMost none q = ⊥
IsAtMost (some w) none = ⊥

-- The value of the new message is at least that of the message before, if there was one.
abbrev pub NotBelow : Ptr Rav → Rav → Type 0
NotBelow none m = Unit
NotBelow (some old) m = IsAtMost old.value_aggregate m.value_aggregate

check_value_iff :
    (m : Rav) (current : Ptr Rav) → (check_value m current ≡ ok tt) ↔ NotBelow current m
unfolding check_value
check_value_iff m none = ground arith
check_value_iff m (some current) = elim (Option-cases m.value_aggregate) [
  | inl e ↦ elim (Option-cases current.value_aggregate) [
    | inl e' ↦ rw (e, e') (ground arith)
    | inr (w, e') ↦ rw (e, e') (ground arith)
  ]
  | inr (v, e) ↦ elim (Option-cases current.value_aggregate) [
    | inl e' ↦ rw (e, e') (ground arith)
    | inr (w, e') ↦ rw (e, e') (ground arith)
  ]
]

module _ (eth : EthGo) where
  -- What `SubmitRAV` asks of the voucher `rav` with the message `m`.
  pub record IsAcceptable (sc : ProviderSidecar) (req : SubmitRavRequest) (s : Session)
      (rav : SignedRav) (m : Rav) : Type 0 where
    pub running : is_active s ≡ true
    pub given : proto_signed_rav_to_horizon {E = SubmitRavResponse} req.signed_rav ≡ ok (some rav)
    pub here : rav.message ≡ some m
    pub signed :
        (signer : Address) × (verify_rav_signature eth sc rav ≡ ok signer)
        × (is_accepted_signer eth sc signer ≡ true)
    pub payer : m.payer ≡ s.payer
    pub provider : m.service_provider ≡ sc.service_provider
    pub value : NotBelow (message_of s.current_rav) m

  pub checks_sound :
      (sc : ProviderSidecar) (req : SubmitRavRequest) (s : Session) {rav : SignedRav}
      → submit_checks eth sc req s ≡ ok rav
      → (m : Rav) × IsAcceptable sc req s rav m
  unfolding submit_checks
  checks_sound sc req s {rav} h =
      let (on, h₁) = >>-eq-ok (err_if (not (is_active s)) _) _ h in
      let (converted, given, h₂) = >>=-eq-ok (proto_signed_rav_to_horizon req.signed_rav) _ h₁ in
      let ((r, m), needed, h₃) = >>=-eq-ok (require_message _ converted) _ h₂ in
      let (here, held) = require_message-ok _ converted needed in
      let (signer, known, h₄) = >>=-eq-ok (require_signer eth _ _ sc r) _ h₃ in
      let (verified, accepted) = require_signer-ok eth _ _ sc r known in
      let (payer, h₅) = >>-eq-ok (err_if (not (addresses_equal m.payer s.payer)) _) _ h₄ in
      let (provider, h₆) =
        >>-eq-ok (err_if (not (addresses_equal m.service_provider sc.service_provider)) _) _ h₅ in
      let (value, h₇) = >>-eq-ok (check_value m (message_of s.current_rav)) _ h₆ in
      let same : r ≡ rav = ground arith in
      (
        m,
        rw⁻¹ same (record {
          running = ground arith;
          given = ground (arith, given, here);
          here = held;
          signed = (signer, verified, accepted);
          payer = ground (arith, sidecar_addresses_equal_iff m.payer s.payer);
          provider =
              ground (arith, sidecar_addresses_equal_iff m.service_provider sc.service_provider);
          value = (check_value_iff m (message_of s.current_rav)).0 value;
        }),
      )

  pub checks_complete :
      (sc : ProviderSidecar) (req : SubmitRavRequest) (s : Session) (rav : SignedRav) (m : Rav)
      → IsAcceptable sc req s rav m
      → submit_checks eth sc req s ≡ ok rav
  unfolding submit_checks
  checks_complete sc req s rav m a =
      let (signer, verified, accepted) = a.signed in
      let payer = (sidecar_addresses_equal_iff m.payer s.payer).1 a.payer in
      let provider =
        (sidecar_addresses_equal_iff m.service_provider sc.service_provider).1 a.provider in
      let value = (check_value_iff m (message_of s.current_rav)).1 a.value in
      let held = require_message-eq (rejected Reason.invalid_or_missing_rav true) rav a.here in
      let known =
        require_signer-eq eth (λ e. rejected (Reason.signature_verification_failed e) true)
          (λ b. rejected (Reason.signer_not_authorized b) true) sc rav verified accepted in
      rw (a.running, a.given, held, known, payer, provider, value) refl
