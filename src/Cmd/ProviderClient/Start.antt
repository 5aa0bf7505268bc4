-- ===== src/Cmd/ProviderClient/Start.antt =====
-- The first voucher of the operator, and the session that its validation opens.
use substreams_data_service.Common.{
  ℕ, ◌≡◌, ◌≢◌, refl, sym, ap, ◌∙◌, none, some, true, Bytes, [], length, replicate, inl, inr, arith,
}
use substreams_data_service.Common.Int.{pos, abs}
use substreams_data_service.Common.Digits.{be_bytes}
use substreams_data_service.Common.Dict.{insert, lookup-insert_self}
use substreams_data_service.Common.Go.{Ptr, ok, panic, Go-cases}
use substreams_data_service.Common.Action.{pure, lift, gets, modify}
use substreams_data_service.Common.Action.Runs.{>>=-run, >>-run, lift-run}
use substreams_data_service.Horizon.Types.{Address, Rav, SignedRav, Signature}
use substreams_data_service.Horizon.EthGo.{EthGo, EthLaws}
use substreams_data_service.Horizon.Eip712.{rav_encodable}
use substreams_data_service.Horizon.SignedMessage.{sign}
use substreams_data_service.Horizon.SignedMessage.Recovery.{recover_signer-sign, sign-signature}
use substreams_data_service.Horizon.SignedMessage.Total.{CanSign, sign_total}
use substreams_data_service.Sidecar.Convert.{
  horizon_signed_rav_to_proto, proto_signed_rav_to_horizon, collection_of,
}
use substreams_data_service.Sidecar.Convert.RoundTrip.{resent}
use substreams_data_service.Sidecar.Session.{
  Session, is_active, set_rav, set_pricing_config, new_session,
}
use substreams_data_service.Sidecar.Manager.{SessionManager, create, on_created}
use substreams_data_service.Consumer.State.Issued.{sent, horizon_signed_rav_to_proto-sent}
use substreams_data_service.Pb.{PbSignedRav, PbBigInt, big_int_from_native}
use substreams_data_service.Provider.State.{
  ProviderSidecar, Env, is_accepted_signer, verify_rav_signature, get_escrow_balance,
}
use substreams_data_service.Provider.Messages.{
  ConnectError, ValidatePaymentRequest, ValidatePaymentResponse,
}
use substreams_data_service.Provider.Validate.{
  balance_field, validate_payment, validate_result, validate_body, get_or_create,
}
use substreams_data_service.Provider.Validate.Outcome.{IsPayable, IsPayable-complete, paid}
use substreams_data_service.Cmd.ProviderClient.{
  Operator, ClientError, or_fail, require_valid, call, payment_request, sign_rav, operator_start,
}
use substreams_data_service.Cmd.ProviderClient.Calls.{IsCharged, call_run}

-- What the operator needs of the sidecar: the same domain, a key whose signer is accepted, the
-- same provider, and a balance query that does not panic.
pub record IsServed (eth : EthGo) (operator : Operator eth) (sc : ProviderSidecar) : Type 0 where
  pub can : CanSign eth operator.domain operator.signer_key
  pub laws : EthLaws eth
  pub size :
      (hash : Bytes) (sig : Signature)
      → eth.sign_hash operator.signer_key hash ≡ ok sig
      → length sig ≡ 65
  pub domain : sc.domain ≡ operator.domain
  pub accepted : is_accepted_signer eth sc (eth.address_of operator.signer_key) ≡ true
  pub provider : operator.service_provider ≡ sc.service_provider
  pub queries : get_escrow_balance sc operator.payer ≢ panic

balance_field_total :
    (sc : ProviderSidecar) (payer : Address)
    → get_escrow_balance sc payer ≢ panic
    → (b : Ptr PbBigInt) × (balance_field {E = ConnectError} (get_escrow_balance sc payer) ≡ ok b)
unfolding balance_field big_int_from_native
balance_field_total sc payer h = elim (Go-cases (get_escrow_balance sc payer)) [
  | inl (none, e) ↦ (none, rw e refl)
  | inl (some z, e) ↦ (some (record { bytes = be_bytes (abs z) }), rw e refl)
  | inr (inl (x, e)) ↦ (none, rw e refl)
  | inr (inr e) ↦ absurd (h e)
]

module _ (eth : EthGo) (sc : ProviderSidecar) (env : Env) where
  abbrev opened : Rav → Session
  opened m = new_session env.fresh_id env.now m.payer sc.service_provider m.data_service

  validate_body_run :
      (req : ValidatePaymentRequest) (rav : SignedRav) (m : Rav) (s : Session)
      → get_escrow_balance sc m.payer ≢ panic
      → (a : ValidatePaymentResponse) × (a.valid ≡ true)
        × (a.session_id ≡ s.id)
        × (validate_body sc env req (rav, m) s ≡ (ok a, paid sc env rav s))
  unfolding validate_body modify lift gets pure set_rav set_pricing_config
  validate_body_run req rav m s h =
      let (b, e) = balance_field_total sc m.payer h in
      let s' = paid sc env rav s in
      (
        _,
        refl,
        refl,
        >>-run (modify (set_rav (some rav) env.now)) _ s refl (
            >>-run (modify (set_pricing_config (some sc.pricing_config))) _
              (set_rav (some rav) env.now s) refl
              (lift-run (balance_field (get_escrow_balance sc m.payer)) _ s' e
                (>>=-run (gets (λ s. s.id)) _ s' refl refl))),
      )

  -- A payable voucher, sent without a session's identifier, opens a session.
  validate_payment_opens :
      (given : Ptr PbSignedRav) (rav : SignedRav) (m : Rav)
      → IsPayable eth sc (payment_request given) rav m
      → get_escrow_balance sc m.payer ≢ panic
      → (a : ValidatePaymentResponse) × (a.valid ≡ true)
        × (a.session_id ≡ env.fresh_id)
        × (validate_payment eth sc env (payment_request given) ≡ (
          ok a,
          record sc {
            sessions = record {
              sessions =
                  insert env.fresh_id
                    (paid sc env rav (opened m))
                    (insert env.fresh_id (opened m) sc.sessions.sessions);
            };
          },
        ))
  unfolding validate_payment validate_result get_or_create on_created create new_session set_rav
      set_pricing_config
  validate_payment_opens given rav m payable h =
      let (a, valid, named, ran) = validate_body_run (payment_request given) rav m (opened m) h in
      (
        a,
        valid,
        named,
        rw (IsPayable-complete eth sc (payment_request given) rav m payable, ran) refl,
      )

module _ (eth : EthGo) (operator : Operator eth) (envs : ℕ → Env) (sc : ProviderSidecar) where
  abbrev first_message : Rav
  first_message = record {
    collection_id = replicate 32 0;
    payer = operator.payer;
    service_provider = operator.service_provider;
    data_service = operator.data_service;
    timestamp_ns = operator.unix_nano;
    value_aggregate = some (pos 0);
    metadata = [];
  }

  first_voucher-IsPayable :
      (rav : SignedRav)
      → IsServed eth operator sc
      → sign eth (rav_encodable eth) operator.domain (some first_message) operator.signer_key
        ≡ ok rav
      → length rav.signature ≡ 65
      → IsPayable eth sc (payment_request (some (sent rav first_message (pos 0)))) rav first_message
  unfolding verify_rav_signature collection_of
  first_voucher-IsPayable rav h signed size =
      let (here, recovered) =
        recover_signer-sign eth (rav_encodable eth) operator.domain (some first_message)
          operator.signer_key h.laws signed in
      let wire = horizon_signed_rav_to_proto-sent {E = ValidatePaymentResponse} rav here refl in
      let back = resent {E = ValidatePaymentResponse} rav first_message (pos 0) here refl size in
      let arrives : proto_signed_rav_to_horizon {E = ValidatePaymentResponse}
            (some (sent rav first_message (pos 0)))
          ≡ ok (some (record { message = some first_message; signature = rav.signature })) =
        rw wire at back in
      let whole : record { message = some first_message; signature = rav.signature } ≡ rav =
        ap (λ x. record { message = x; signature = rav.signature }) (sym here) in
      record {
        given = arrives ∙ ap (λ r. ok (some r)) whole;
        here = here;
        signed = (eth.address_of operator.signer_key, rw h.domain recovered, h.accepted);
        provider = h.provider;
      }

  -- The operator signs its first voucher, and the sidecar opens a session for it.
  pub operator_start-IsCharged :
      IsServed eth operator sc
      → (sc' : ProviderSidecar) × (operator_start eth operator envs sc
          ≡ (ok (envs 0).fresh_id, sc'))
        × IsCharged sc operator.payer (envs 0).fresh_id 0 sc'
  unfolding operator_start sign_rav new_session set_rav set_pricing_config is_active lift
  operator_start-IsCharged h =
      let id = (envs 0).fresh_id in
      let (rav, signed) =
        sign_total eth operator.domain operator.signer_key first_message 0 h.can refl
          (omega arith) in
      let (hash, made) =
        sign-signature eth (rav_encodable eth) operator.domain (some first_message)
          operator.signer_key signed in
      let size = h.size hash rav.signature made in
      let (here, recovered) =
        recover_signer-sign eth (rav_encodable eth) operator.domain (some first_message)
          operator.signer_key h.laws signed in
      let wire = horizon_signed_rav_to_proto-sent {E = ClientError} rav here refl in
      let given = some (sent rav first_message (pos 0)) in
      let (a, valid, named, ran) =
        validate_payment_opens eth sc (envs 0) given rav first_message
          (first_voucher-IsPayable rav h signed size) h.queries in
      let s' = paid sc (envs 0) rav (opened eth sc (envs 0) first_message) in
      let sessions : SessionManager = record {
        sessions =
            insert id s' (insert id (opened eth sc (envs 0) first_message) sc.sessions.sessions);
      } in
      let sc' : ProviderSidecar = record sc { sessions = sessions } in
      let answered : require_valid a a.valid ≡ ok id = rw (valid, named) refl in
      (
        sc',
        lift-run
            (or_fail ClientError.sign_failed (
              sign_rav eth operator.domain operator.signer_key (replicate 32 0) operator.payer
                operator.data_service operator.service_provider operator.unix_nano (some (pos 0))
                []))
            _ sc (ap (or_fail ClientError.sign_failed) signed)
            (lift-run (horizon_signed_rav_to_proto (some rav)) _ sc wire (
              >>=-run (call (λ sc. validate_payment eth sc (envs 0) (payment_request given))) _ sc
                (call_run (λ sc. validate_payment eth sc (envs 0) (payment_request given)) sc ran)
                (ap (λ x. (x, sc')) answered))),
        record {
          session = s';
          sessions = sessions;
          rav = rav;
          message = first_message;
          value = pos 0;
          frame = refl;
          there = lookup-insert_self id s' _;
          running = refl;
          paid_by = refl;
          cost = refl;
          held = refl;
          given = here;
          valued = refl;
        },
      )
