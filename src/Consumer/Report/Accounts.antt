-- ===== src/Consumer/Report/Accounts.antt =====
-- What the consumer signs when it reports usage.
use substreams_data_service.Common.{◌≡◌, refl, sym, ap, none, some, true, [], arith}
use substreams_data_service.Common.Int.{ℤ, pos, int_laws, ◌+ℤ◌}
use substreams_data_service.Common.Digits.{set_bytes}
use substreams_data_service.Common.Dict.{lookup, insert, insert-lookup}
use substreams_data_service.Common.Go.{Ptr, ok, err, panic}
use substreams_data_service.Common.Action.{◌>>=◌, ◌>>◌, pure, lift, gets, modify}
use substreams_data_service.Common.Action.Runs.{>>=-run, >>-run, lift-run}
use substreams_data_service.Horizon.Eip712.{rav_encodable}
use substreams_data_service.Horizon.SignedMessage.{sign}
use substreams_data_service.Horizon.SignedMessage.Recovery.{sign-message}
use substreams_data_service.Sidecar.Convert.{horizon_signed_rav_to_proto}
use substreams_data_service.Sidecar.Usage.Charged.{charged, apply_usage-charged}
use substreams_data_service.Consumer.State.Issued.{sent, horizon_signed_rav_to_proto-sent}
use substreams_data_service.Horizon.Types.{Rav, SignedRav, message_of}
use substreams_data_service.Horizon.EthGo.{EthGo}
use substreams_data_service.Pb.{PbUsage, PbBigInt, to_native}
use substreams_data_service.Sidecar.Session.{Session, is_active, set_rav, add_usage}
use substreams_data_service.Sidecar.Manager.{SessionManager}
use substreams_data_service.Sidecar.Manager.Frame.{on_session-found}
use substreams_data_service.Sidecar.Usage.{apply_usage}
use substreams_data_service.Consumer.State.{
  not_found, ConsumerConfig, ConnectError, Env, ReportUsageRequest, collection_or_zero, sign_rav,
}
use substreams_data_service.Consumer.Report.{
  cost_of, new_value, report_active, report_body, report_usage,
}

-- The value of the voucher before the report: zero if there is no message.
abbrev pub value_before : Ptr Rav → Ptr ℤ
value_before none = some (pos 0)
value_before (some m) = m.value_aggregate

pub new_value-sum :
    {E : Type 0} (message : Ptr Rav) (u : PbUsage) (b : PbBigInt) (w : ℤ)
    → value_before message ≡ some w
    → u.cost ≡ some b
    → new_value {E = E} message (some u) ≡ ok (w +ℤ pos (set_bytes b.bytes))
unfolding new_value cost_of to_native
new_value-sum none u b w h e =
    let zero : pos 0 ≡ w = ground arith in rw (e, sym zero) (ap ok (omega int_laws))
new_value-sum (some m) u b w h e = rw (e, h) refl

pub no_value : {E : Type 0} (message : Ptr Rav) → new_value {E = E} message none ≡ panic
unfolding new_value cost_of
no_value none = refl
no_value (some m) = refl

module _ (eth : EthGo) (c : ConsumerConfig eth) (env : Env) (req : ReportUsageRequest) where
  -- The message of the next voucher of the session `s`, of the value `v`.
  abbrev pub next_message : Session → ℤ → Rav
  next_message s v = record {
    collection_id = collection_or_zero (message_of s.current_rav);
    payer = s.payer;
    service_provider = s.receiver;
    data_service = s.data_service;
    timestamp_ns = env.unix_nano;
    value_aggregate = some v;
    metadata = [];
  }

  -- The session after a report of `u`, of the cost `b`, with the new voucher.
  abbrev pub reported : Session → PbUsage → PbBigInt → SignedRav → Session
  reported s u b rav = set_rav (some rav) env.now (charged u b env.now s)

  pub report_body_signs :
      (s : Session) (u : PbUsage) (b : PbBigInt) (w : ℤ) (rav : SignedRav)
      → is_active s ≡ true
      → req.usage ≡ some u
      → u.cost ≡ some b
      → value_before (message_of s.current_rav) ≡ some w
      → sign eth
          (rav_encodable eth)
          c.domain
          (some (next_message s (w +ℤ pos (set_bytes b.bytes))))
          c.signer_key
        ≡ ok rav
      → report_body eth c env req s ≡ (
        ok (record {
          updated_rav = some (
              sent rav
                (next_message s (w +ℤ pos (set_bytes b.bytes)))
                (w +ℤ pos (set_bytes b.bytes)));
          should_continue = true;
        }),
        reported s u b rav,
      )
  unfolding report_body report_active sign_rav add_usage gets lift modify pure
  report_body_signs s u b w rav running given cost before signed =
      let v = w +ℤ pos (set_bytes b.bytes) in
      let value = new_value-sum {E = ConnectError} (message_of s.current_rav) u b w before cost in
      let here =
        sign-message eth (rav_encodable eth) c.domain (some (next_message s v)) c.signer_key
          signed in
      let wire = horizon_signed_rav_to_proto-sent {E = ConnectError} rav here refl in
      rw (running, given)
        (>>-run (apply_usage (some u) env.now) _ s (apply_usage-charged u b env.now s cost) (
          >>=-run (gets (λ t. t)) _ _ refl (
            lift-run (new_value (message_of s.current_rav) (some u)) _ _ value (
              lift-run
                (sign_rav eth c _ s.payer s.data_service s.receiver env.unix_nano (some v) []) _ _
                (rw (sign_rav, signed) refl)
                (>>-run (modify (set_rav (some rav) env.now)) _ _ refl
                  (lift-run (horizon_signed_rav_to_proto (some rav)) _ _ wire refl))))))

  -- A usage report on an active session, with a cost, and a voucher whose value is there or no
  -- voucher yet, adds the usage to the session and the cost to the value: if the new message can
  -- be signed, the session holds the signed voucher and the response carries it.
  pub report_usage_signs :
      (sm : SessionManager) (s : Session) (u : PbUsage) (b : PbBigInt) (w : ℤ) (rav : SignedRav)
      → lookup req.session_id sm.sessions ≡ some s
      → is_active s ≡ true
      → req.usage ≡ some u
      → u.cost ≡ some b
      → value_before (message_of s.current_rav) ≡ some w
      → sign eth
          (rav_encodable eth)
          c.domain
          (some (next_message s (w +ℤ pos (set_bytes b.bytes))))
          c.signer_key
        ≡ ok rav
      → report_usage eth c env req sm ≡ (
        ok (record {
          updated_rav = some (
              sent rav
                (next_message s (w +ℤ pos (set_bytes b.bytes)))
                (w +ℤ pos (set_bytes b.bytes)));
          should_continue = true;
        }),
        record { sessions = insert req.session_id (reported s u b rav) sm.sessions },
      )
  unfolding report_usage
  report_usage_signs sm s u b w rav there running given cost before signed =
      rw
        (
          on_session-found req.session_id (err (not_found req.session_id))
              (report_body eth c env req) sm there,
          report_body_signs s u b w rav running given cost before signed,
        )
        refl

  -- A report without usage on an active session panics, and leaves the sessions as they were.
  pub report_usage_panics :
      (sm : SessionManager) (s : Session)
      → lookup req.session_id sm.sessions ≡ some s
      → is_active s ≡ true
      → req.usage ≡ none
      → report_usage eth c env req sm ≡ (panic, sm)
  unfolding report_usage report_body report_active apply_usage new_value cost_of ◌>>=◌ ◌>>◌ lift
      gets pure
  report_usage_panics sm s there running missing =
      let value : new_value {E = ConnectError} (message_of s.current_rav) none ≡ panic =
        no_value (message_of s.current_rav) in
      let body : report_body eth c env req s ≡ (panic, s) = rw (running, missing, value) refl in
      rw
        (
          on_session-found req.session_id (err (not_found req.session_id))
              (report_body eth c env req) sm there,
          body,
          insert-lookup req.session_id s sm.sessions there,
        )
        refl
