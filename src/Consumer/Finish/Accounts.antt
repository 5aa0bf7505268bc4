-- ===== src/Consumer/Finish/Accounts.antt =====
-- What the consumer signs when it ends a session.
use substreams_data_service.Common.{ℕ, ◌≡◌, refl, sym, ap, ◌∙◌, none, some, [], arith}
use substreams_data_service.Common.Int.{ℤ, pos, ◌+ℤ◌, int_laws, abs}
use substreams_data_service.Common.Digits.{set_bytes, be_bytes}
use substreams_data_service.Common.Dict.{lookup, insert}
use substreams_data_service.Common.Go.{Ptr, ok, err}
use substreams_data_service.Common.Action.{pure, lift, gets, modify}
use substreams_data_service.Common.Action.Runs.{>>=-run, >>-run, lift-run}
use substreams_data_service.Horizon.Types.{Rav, SignedRav, message_of}
use substreams_data_service.Horizon.EthGo.{EthGo}
use substreams_data_service.Horizon.Eip712.{rav_encodable}
use substreams_data_service.Horizon.SignedMessage.{sign}
use substreams_data_service.Horizon.SignedMessage.Recovery.{sign-message}
use substreams_data_service.Pb.{EndReason, PbUsage, PbBigInt, to_native, big_int_from_native}
use substreams_data_service.Sidecar.Convert.{horizon_signed_rav_to_proto}
use substreams_data_service.Sidecar.Session.{
  ended, Session, set_rav, end_session, add_usage, get_usage,
}
use substreams_data_service.Sidecar.Manager.{SessionManager}
use substreams_data_service.Sidecar.Manager.Frame.{on_session-found}
use substreams_data_service.Sidecar.Usage.{apply_usage}
use substreams_data_service.Sidecar.Usage.Charged.{charged, apply_usage-charged}
use substreams_data_service.Consumer.State.{
  ConsumerConfig, ConnectError, not_found, Env, EndSessionRequest, collection_or_zero, sign_rav,
}
use substreams_data_service.Consumer.State.Issued.{sent, horizon_signed_rav_to_proto-sent}
use substreams_data_service.Consumer.Report.Accounts.{value_before}
use substreams_data_service.Consumer.Finish.{final_value, finish_body, finish_session}

final_value-sum :
    {E : Type 0} (message : Ptr Rav) (u : PbUsage) (b : PbBigInt) (w : ℤ)
    → value_before message ≡ some w
    → u.cost ≡ some b
    → final_value {E = E} message (some u) ≡ ok (some (w +ℤ pos (set_bytes b.bytes)))
unfolding final_value to_native
final_value-sum none u b w h e =
    let zero : pos 0 ≡ w = ground arith in rw (e, sym zero) (ap (λ x. ok (some x)) (omega int_laws))
final_value-sum (some m) u b w h e = rw (e, h) refl

final_value-same :
    {E : Type 0} (message : Ptr Rav) (w : ℤ)
    → value_before message ≡ some w
    → final_value {E = E} message none ≡ ok (some w)
unfolding final_value
final_value-same none w h = ap ok h
final_value-same (some m) w h = ap ok h

-- The session `s` with its last usage, if any, and the value of the final voucher.
abbrev pub settled : Ptr PbUsage → PbBigInt → ℕ → Session → Session
settled none b now s = s
settled (some u) b now s = charged u b now s

abbrev pub final_total : Ptr PbUsage → PbBigInt → ℤ → ℤ
final_total none b w = w
final_total (some u) b w = w +ℤ pos (set_bytes b.bytes)

-- The cost of the last usage, if any, is `b`.
abbrev pub HasCost : Ptr PbUsage → PbBigInt → Type 0
HasCost none b = Unit
HasCost (some u) b = u.cost ≡ some b

apply-settled :
    {E : Type 0} (u : Ptr PbUsage) (b : PbBigInt) (now : ℕ) (s : Session)
    → HasCost u b
    → apply_usage {E = E} u now s ≡ (ok tt, settled u b now s)
unfolding apply_usage pure
apply-settled none b now s h = refl
apply-settled (some u) b now s h = apply_usage-charged u b now s h

final_value-total :
    {E : Type 0} (message : Ptr Rav) (u : Ptr PbUsage) (b : PbBigInt) (w : ℤ)
    → value_before message ≡ some w
    → HasCost u b
    → final_value {E = E} message u ≡ ok (some (final_total u b w))
final_value-total message none b w h e = final_value-same message w h
final_value-total message (some u) b w h e = final_value-sum message u b w h e

settled_rav :
    (u : Ptr PbUsage) (b : PbBigInt) (now : ℕ) (s : Session)
    → (settled u b now s).current_rav ≡ s.current_rav
unfolding add_usage
settled_rav none b now s = refl
settled_rav (some u) b now s = refl

module _ (eth : EthGo) (c : ConsumerConfig eth) (env : Env) (req : EndSessionRequest) where
  -- The message of the final voucher of the session `s`, of the value `v`.
  abbrev pub final_message : Session → ℤ → Rav
  final_message s v = record {
    collection_id = collection_or_zero (message_of s.current_rav);
    payer = s.payer;
    service_provider = s.receiver;
    data_service = s.data_service;
    timestamp_ns = env.unix_nano;
    value_aggregate = some v;
    metadata = [];
  }

  -- The session after its end: the last usage added, the final voucher stored, the state ended.
  abbrev pub finished : Session → PbBigInt → SignedRav → Session
  finished s b rav = record (settled req.final_usage b env.now s) {
    current_rav = some rav;
    state = ended;
    ended_at = some env.now;
    end_reason = EndReason.complete;
    updated_at = env.now;
  }

  abbrev pub final_usage_of : Session → PbUsage
  final_usage_of s = record {
    blocks_processed = s.blocks_processed;
    bytes_transferred = s.bytes_transferred;
    requests = s.requests;
    cost = some (record { bytes = be_bytes (abs s.total_cost) });
  }

  finish_body_signs :
      (s : Session) (b : PbBigInt) (w : ℤ) (rav : SignedRav)
      → HasCost req.final_usage b
      → value_before (message_of s.current_rav) ≡ some w
      → sign eth
          (rav_encodable eth)
          c.domain
          (some
            (final_message (settled req.final_usage b env.now s) (final_total req.final_usage b w)))
          c.signer_key
        ≡ ok rav
      → finish_body eth c env req s ≡ (
        ok (record {
          final_rav = some (
              sent rav
                (final_message
                  (settled req.final_usage b env.now s)
                  (final_total req.final_usage b w))
                (final_total req.final_usage b w));
          total_usage = final_usage_of (finished s b rav);
        }),
        finished s b rav,
      )
  unfolding finish_body gets lift modify pure get_usage big_int_from_native sign_rav set_rav
      end_session
  finish_body_signs s b w rav cost before signed =
      let t = settled req.final_usage b env.now s in
      let v = final_total req.final_usage b w in
      let value =
        final_value-total {E = ConnectError} (message_of t.current_rav) req.final_usage b w
          (ap (λ r. value_before (message_of r)) (settled_rav req.final_usage b env.now s) ∙ before)
          cost in
      let here =
        sign-message eth (rav_encodable eth) c.domain (some (final_message t v)) c.signer_key
          signed in
      let wire = horizon_signed_rav_to_proto-sent {E = ConnectError} rav here refl in
      >>-run (apply_usage req.final_usage env.now) _ s
        (apply-settled req.final_usage b env.now s cost)
        (>>=-run (gets (λ x. x)) _ _ refl (
          lift-run (final_value (message_of t.current_rav) req.final_usage) _ _ value (
            lift-run (sign_rav eth c _ t.payer t.data_service t.receiver env.unix_nano (some v) [])
              _ _ (rw (sign_rav, signed) refl)
              (>>-run (modify (set_rav (some rav) env.now)) _ _ refl (
                >>-run (modify (end_session EndReason.complete env.now)) _ _ refl (
                  >>=-run (gets (λ x. x)) _ _ refl (
                    lift-run (get_usage (finished s b rav)) _ _ refl
                      (lift-run (horizon_signed_rav_to_proto (some rav)) _ _ wire refl))))))))

  -- Ending a session, whatever its state, whose voucher has a value or that has no voucher, with
  -- or without a last usage report: the report is added to the counts and the cost, and if the
  -- final message can be signed, of the value so far plus the reported cost, the session holds
  -- that voucher, has the state ended, the reason complete and the present time as its end, and
  -- the response carries the voucher and the session's total usage.
  pub finish_session_signs :
      (sm : SessionManager) (s : Session) (b : PbBigInt) (w : ℤ) (rav : SignedRav)
      → lookup req.session_id sm.sessions ≡ some s
      → HasCost req.final_usage b
      → value_before (message_of s.current_rav) ≡ some w
      → sign eth
          (rav_encodable eth)
          c.domain
          (some
            (final_message (settled req.final_usage b env.now s) (final_total req.final_usage b w)))
          c.signer_key
        ≡ ok rav
      → finish_session eth c env req sm ≡ (
        ok (record {
          final_rav = some (
              sent rav
                (final_message
                  (settled req.final_usage b env.now s)
                  (final_total req.final_usage b w))
                (final_total req.final_usage b w));
          total_usage = final_usage_of (finished s b rav);
        }),
        record { sessions = insert req.session_id (finished s b rav) sm.sessions },
      )
  unfolding finish_session
  finish_session_signs sm s b w rav there cost before signed =
      rw
        (
          on_session-found req.session_id (err (not_found req.session_id))
              (finish_body eth c env req) sm there,
          finish_body_signs s b w rav cost before signed,
        )
        refl
