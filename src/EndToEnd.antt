-- ===== src/EndToEnd.antt =====
-- The two sidecars together: the voucher that the consumer's `ReportUsage` signs, as the provider's
-- `SubmitRAV` receives it.
use substreams_data_service.Common.{
  ℕ, ◌+◌, ◌≤◌, arith, none, String, ◌≡◌, refl, sym, ap, ◌∙◌, some, true, length,
}
use substreams_data_service.Common.Int.{pos, ◌+ℤ◌, int_laws}
use substreams_data_service.Common.Digits.{set_bytes}
use substreams_data_service.Common.Dict.{lookup, insert}
use substreams_data_service.Common.Go.{Ptr, ok}
use substreams_data_service.Horizon.Types.{Rav, SignedRav, message_of}
use substreams_data_service.Horizon.EthGo.{EthGo, EthLaws}
use substreams_data_service.Horizon.Eip712.{rav_encodable}
use substreams_data_service.Horizon.SignedMessage.{sign}
use substreams_data_service.Horizon.SignedMessage.Recovery.{recover_signer-sign}
use substreams_data_service.Sidecar.Convert.{proto_signed_rav_to_horizon, collection_of}
use substreams_data_service.Sidecar.Convert.RoundTrip.{received, resent}
use substreams_data_service.Sidecar.Session.{Session, is_active, set_rav}
use substreams_data_service.Sidecar.Manager.{SessionManager}
use substreams_data_service.Pb.{PbUsage, PbBigInt, PbSignedRav}
use substreams_data_service.Provider.State.{
  ProviderSidecar, is_accepted_signer, verify_rav_signature,
}
use substreams_data_service.Provider.State as ProviderState
use substreams_data_service.Provider.Submit.{submit_rav, accepted_response}
use substreams_data_service.Provider.Submit.Effect.{submit_rav_stores}
use substreams_data_service.Provider.Messages.{SubmitRavRequest, SubmitRavResponse}
use substreams_data_service.Provider.Submit.Outcome.{IsAcceptable, NotBelow}
use substreams_data_service.Consumer.State.{
  ConsumerConfig, Env, ReportUsageRequest, collection_or_zero, zero_collection,
}
use substreams_data_service.Consumer.State.Issued.{sent, horizon_signed_rav_to_proto-sent}
use substreams_data_service.Consumer.Report.Accounts.{
  value_before, next_message, report_usage_signs,
}
use substreams_data_service.Consumer.Report.{report_usage}

module _ (eth : EthGo) (c : ConsumerConfig eth) (env : Env) (report : ReportUsageRequest)
    (s : Session) where
  -- Without a collection, what the provider receives is what the consumer signed.
  received-next_message :
      (n : ℕ)
      → collection_or_zero (message_of s.current_rav) ≡ zero_collection
      → received (next_message eth c env report s (pos n)) (pos n)
        ≡ next_message eth c env report s (pos n)
  unfolding collection_of
  received-next_message n e = let z : n + 0 ≡ n = omega arith in rw (e, z) refl

  next_message-IsAcceptable :
      (sc : ProviderSidecar) (submission : SubmitRavRequest) (t : Session) (n : ℕ) (rav : SignedRav)
      → EthLaws eth
      → sign eth
          (rav_encodable eth)
          c.domain
          (some (next_message eth c env report s (pos n)))
          c.signer_key
        ≡ ok rav
      → length rav.signature ≡ 65
      → collection_or_zero (message_of s.current_rav) ≡ zero_collection
      → submission.signed_rav ≡ some (sent rav (next_message eth c env report s (pos n)) (pos n))
      → sc.domain ≡ c.domain
      → is_accepted_signer eth sc (eth.address_of c.signer_key) ≡ true
      → is_active t ≡ true
      → s.payer ≡ t.payer
      → s.receiver ≡ sc.service_provider
      → NotBelow (message_of t.current_rav) (next_message eth c env report s (pos n))
      → IsAcceptable eth sc submission t rav (next_message eth c env report s (pos n))
  unfolding verify_rav_signature
  next_message-IsAcceptable sc submission t n rav laws signed size zero given same known running
        payer provider value =
      let m = next_message eth c env report s (pos n) in
      let (here, recovered) =
        recover_signer-sign eth (rav_encodable eth) c.domain (some m) c.signer_key laws signed in
      let wire = horizon_signed_rav_to_proto-sent {E = SubmitRavResponse} rav here refl in
      let back = resent {E = SubmitRavResponse} rav m (pos n) here refl size in
      let arrives : proto_signed_rav_to_horizon {E = SubmitRavResponse} (some (sent rav m (pos n)))
          ≡ ok (some (record { message = some (received m (pos n)); signature = rav.signature })) =
        rw wire at back in
      let whole : record { message = some (received m (pos n)); signature = rav.signature } ≡ rav =
        ap (λ x. record { message = x; signature = rav.signature })
          (ap some (received-next_message n zero) ∙ sym here) in
      record {
        running = running;
        given =
            ap (λ p. proto_signed_rav_to_horizon p) given ∙ arrives ∙ ap (λ r. ok (some r)) whole;
        here = here;
        signed = (eth.address_of c.signer_key, rw same recovered, known);
        payer = payer;
        provider = provider;
        value = value;
      }

not_below :
    (message : Ptr Rav) (m : Rav) (k v : ℕ)
    → value_before message ≡ some (pos k)
    → m.value_aggregate ≡ some (pos v)
    → k ≤ v
    → NotBelow message m
not_below none m k v h e le = tt
not_below (some old) m k v h e le = rw (h, e) (omega (int_laws, le))

pos_sum : (n m : ℕ) → pos (n + m) ≡ pos n +ℤ pos m
pos_sum n m = omega int_laws

module _ (eth : EthGo) (c : ConsumerConfig eth) (env : Env) (report : ReportUsageRequest) where
  -- The consumer answers a report of the usage `u` of its active session `s`, whose voucher has the
  -- value `n` and no collection, with a voucher; the provider, to which that answer is submitted
  -- for its active session `t`, accepts it and stores the voucher that the consumer signed, of
  -- the value `n` and the cost. The two use one domain, the consumer's signer is accepted, payer
  -- and receiver agree, the voucher of `t`, if any, has a value of at most `n`, and the signature
  -- has 65 bytes and recovers to its signer.
  pub submit_rav-report_usage :
      (sm : SessionManager) (s t : Session) (u : PbUsage) (b : PbBigInt) (n k : ℕ)
      (sc : ProviderSidecar) (provider_env : ProviderState.Env) (id : String) (rav : SignedRav)
      → EthLaws eth
      → lookup report.session_id sm.sessions ≡ some s
      → is_active s ≡ true
      → report.usage ≡ some u
      → u.cost ≡ some b
      → value_before (message_of s.current_rav) ≡ some (pos n)
      → collection_or_zero (message_of s.current_rav) ≡ zero_collection
      → sign eth
          (rav_encodable eth)
          c.domain
          (some (next_message eth c env report s (pos (n + set_bytes b.bytes))))
          c.signer_key
        ≡ ok rav
      → length rav.signature ≡ 65
      → sc.domain ≡ c.domain
      → is_accepted_signer eth sc (eth.address_of c.signer_key) ≡ true
      → lookup id sc.sessions.sessions ≡ some t
      → is_active t ≡ true
      → s.payer ≡ t.payer
      → s.receiver ≡ sc.service_provider
      → value_before (message_of t.current_rav) ≡ some (pos k)
      → k ≤ n
      → (wire : PbSignedRav) × ((report_usage eth c env report sm).0
          ≡ ok (record { updated_rav = some wire; should_continue = true }))
        × (submit_rav eth sc provider_env
              (record { session_id = id; signed_rav = some wire; usage = none })
            ≡ (
              ok accepted_response,
              record sc {
                sessions = record {
                  sessions =
                      insert id
                        (record t { current_rav = some rav; updated_at = provider_env.now })
                        sc.sessions.sessions;
                };
              },
            ))
  unfolding set_rav
  submit_rav-report_usage sm s t u b n k sc provider_env id rav laws there running given cost before
        zero signed size same known held live payer receiver stored le =
      let v = n + set_bytes b.bytes in
      let m = next_message eth c env report s (pos v) in
      let answer =
        report_usage_signs eth c env report sm s u b (pos n) rav there running given cost before
          (rw⁻¹ (pos_sum n (set_bytes b.bytes)) signed) in
      let wire = sent rav m (pos v) in
      let submission : SubmitRavRequest = record {
        session_id = id;
        signed_rav = some wire;
        usage = none;
      } in
      (
        wire,
        ap (λ x. x.0) answer
            ∙ ap
                (λ x. ok (record {
                  updated_rav = some (sent rav (next_message eth c env report s x) x);
                  should_continue = true;
                }))
                (sym (pos_sum n (set_bytes b.bytes))),
        submit_rav_stores eth sc provider_env submission held (
            next_message-IsAcceptable eth c env report s sc submission t v rav laws signed size zero
              refl same known live payer receiver
              (not_below (message_of t.current_rav) m k v stored refl (omega (arith, le)))),
      )
