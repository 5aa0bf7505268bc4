-- ===== src/Cmd/ProviderClient/Calls.antt =====
-- What the calls of the operator do to its session.
use substreams_data_service.Common.{ℕ, ◌+◌, ◌≡◌, refl, ap, ◌∙◌, some, true, String, arith}
use substreams_data_service.Common.Int.{ℤ, pos, ◌+ℤ◌, abs, int_laws}
use substreams_data_service.Common.Digits.{set_bytes, be_bytes, value-digits}
use substreams_data_service.Common.Dict.{lookup, insert, lookup-insert_self}
use substreams_data_service.Common.Go.{Go, ok}
use substreams_data_service.Common.Action.{Action, pure, lift, gets, modify}
use substreams_data_service.Common.Action.Runs.{>>=-run, >>-run, lift-run}
use substreams_data_service.Horizon.Types.{Address, Rav, SignedRav}
use substreams_data_service.Sidecar.Usage.{apply_usage}
use substreams_data_service.Sidecar.Usage.Charged.{charged, apply_usage-charged}
use substreams_data_service.Sidecar.Convert.{horizon_signed_rav_to_proto}
use substreams_data_service.Sidecar.Session.{
  Session, ended, is_active, add_usage, end_session, get_usage,
}
use substreams_data_service.Sidecar.Manager.{SessionManager, on_session}
use substreams_data_service.Sidecar.Manager.Frame.{on_session-found}
use substreams_data_service.Consumer.State.Issued.{sent, horizon_signed_rav_to_proto-sent}
use substreams_data_service.Pb.{PbUsage, PbBigInt, EndReason, big_int_from_native}
use substreams_data_service.Provider.State.{ProviderSidecar, Env, with_sessions}
use substreams_data_service.Provider.Messages.{
  Reason, ConnectError, ReportUsageResponse, EndSessionRequest, EndSessionResponse,
}
use substreams_data_service.Provider.Report.{is_set, report_usage, report_body, add_reported}
use substreams_data_service.Provider.Finish.{finish_session, finish_body}
use substreams_data_service.Cmd.Batches.{no_usage}
use substreams_data_service.Cmd.ProviderClient.{operator_report, operator_end, call}

-- The sidecar `sc` is as `before` but for its sessions, of which `id` is active, of this payer and
-- of the total cost `v`, and has a voucher with a message that has a value.
pub record IsCharged (before : ProviderSidecar) (payer : Address) (id : String) (v : ℕ)
    (sc : ProviderSidecar) : Type 0 where
  pub session : Session
  pub sessions : SessionManager
  pub rav : SignedRav
  pub message : Rav
  pub value : ℤ
  pub frame : sc ≡ record before { sessions = sessions }
  pub there : lookup id sessions.sessions ≡ some session
  pub running : is_active session ≡ true
  pub paid_by : session.payer ≡ payer
  pub cost : session.total_cost ≡ pos v
  pub held : session.current_rav ≡ some rav
  pub given : rav.message ≡ some message
  pub valued : message.value_aggregate ≡ some value

cost_bytes : (v n : ℕ) → pos v +ℤ pos (set_bytes (be_bytes n)) ≡ pos (v + n)
cost_bytes v n = rw (value-digits 256 (omega arith) n) (omega int_laws)

pub call_run :
    {A : Type 0} (f : ProviderSidecar → Go ConnectError A × ProviderSidecar) (sc : ProviderSidecar)
    {a : A} {sc' : ProviderSidecar}
    → f sc ≡ (ok a, sc')
    → call f sc ≡ (ok a, sc')
unfolding call
call_run f sc h = rw h refl

-- A handler on the session of a sidecar that is known but for its sessions.
on_session_run :
    {A : Type 0} (before sc : ProviderSidecar) (id : String) (sessions : SessionManager)
    (missing : Go ConnectError A) (body : Action Session ConnectError A) {s s' : Session} {a : A}
    → sc ≡ record before { sessions = sessions }
    → lookup id sessions.sessions ≡ some s
    → body s ≡ (ok a, s')
    → with_sessions (on_session id missing body) sc
      ≡ (ok a, record before { sessions = record { sessions = insert id s' sessions.sessions } })
on_session_run before sc id sessions missing body frame there ran =
    rw (frame, on_session-found id missing body sessions there, ran) refl

module _ (before : ProviderSidecar) (payer : Address) (envs : ℕ → Env) (id : String) where
  report_body_run :
      (env : Env) (u : PbUsage) (b : PbBigInt) (s : Session)
      → u.cost ≡ some b
      → is_active s ≡ true
      → (a : ReportUsageResponse) × (a.should_continue ≡ true)
        × (report_body env (record { session_id = id; usage = some u }) s
            ≡ (ok a, charged u b env.now s))
  unfolding report_body add_reported gets pure add_usage
  report_body_run env u b s cost running = (
    record {
      should_continue = true;
      stop_reason = Reason.no_reason;
      rav_updated = is_set s.current_rav;
    },
    refl,
    rw running (
        >>-run (apply_usage (some u) env.now) _ s (apply_usage-charged u b env.now s cost)
          (>>=-run (gets (λ t. t.current_rav)) _ (charged u b env.now s) refl refl)),
  )

  -- A report of the cost `n` on an active session.
  pub operator_report-IsCharged :
      (i v n : ℕ) (u : PbUsage) (sc : ProviderSidecar)
      → u.cost ≡ some (record { bytes = be_bytes n })
      → IsCharged before payer id v sc
      → (sc' : ProviderSidecar) × (operator_report envs id i u sc ≡ (ok true, sc'))
        × IsCharged before payer id (v + n) sc'
  unfolding operator_report report_usage add_usage pure is_active
  operator_report-IsCharged i v n u sc cost h =
      let b : PbBigInt = record { bytes = be_bytes n } in
      let env = envs i in
      let s' = charged u b env.now h.session in
      let (a, go, ran) = report_body_run env u b h.session cost h.running in
      let served =
        on_session_run before sc id h.sessions _
          (report_body env (record { session_id = id; usage = some u })) h.frame h.there ran in
      let sc' : ProviderSidecar = record before {
        sessions = record { sessions = insert id s' h.sessions.sessions };
      } in
      (
        sc',
        >>=-run (call (λ sc. report_usage sc env (record { session_id = id; usage = some u })))
            (λ response. pure response.should_continue) sc (call_run _ sc served)
            (ap (λ x. (ok x, sc')) go),
        record {
          session = s';
          sessions = record { sessions = insert id s' h.sessions.sessions };
          rav = h.rav;
          message = h.message;
          value = h.value;
          frame = refl;
          there = lookup-insert_self id s' h.sessions.sessions;
          running = h.running;
          paid_by = h.paid_by;
          cost = ap (λ z. z +ℤ pos (set_bytes (be_bytes n))) h.cost ∙ cost_bytes v n;
          held = h.held;
          given = h.given;
          valued = h.valued;
        },
      )

-- The session `id` has ended, with the total cost `v`.
pub record IsClosed (id : String) (v : ℕ) (sc : ProviderSidecar) : Type 0 where
  pub session : Session
  pub there : lookup id sc.sessions.sessions ≡ some session
  pub over : session.state ≡ ended
  pub reason : session.end_reason ≡ EndReason.complete
  pub cost : session.total_cost ≡ pos v

module _ (before : ProviderSidecar) (payer : Address) (envs : ℕ → Env) (id : String) where
  abbrev end_request : EndSessionRequest
  end_request = record { session_id = id; final_usage = some no_usage; reason = EndReason.complete }

  finish_body_run :
      (env : Env) (s : Session) {rav : SignedRav} {m : Rav} {value : ℤ} {v : ℕ}
      → s.current_rav ≡ some rav
      → rav.message ≡ some m
      → m.value_aggregate ≡ some value
      → s.total_cost ≡ pos v
      → (a : EndSessionResponse) × (a.total_value ≡ record { bytes = be_bytes v })
        × (finish_body env end_request s ≡ (
          ok a,
          end_session EndReason.complete env.now
              (charged no_usage (record { bytes = be_bytes 0 }) env.now s),
        ))
  unfolding finish_body add_usage end_session gets modify lift pure get_usage big_int_from_native
  finish_body_run env s {rav} {m} {value} {v} held given valued cost =
      let t = charged no_usage (record { bytes = be_bytes 0 }) env.now s in
      let u = end_session EndReason.complete env.now t in
      let wire = horizon_signed_rav_to_proto-sent {E = ConnectError} rav given valued in
      let total : u.total_cost ≡ pos v =
        ap (λ z. z +ℤ pos (set_bytes (be_bytes 0))) cost ∙ cost_bytes v 0 ∙ ap pos (omega arith) in
      let same : abs (pos v) ≡ v = omega arith in
      (
        record {
          final_rav = some (sent rav m value);
          total_usage = record {
            blocks_processed = u.blocks_processed;
            bytes_transferred = u.bytes_transferred;
            requests = u.requests;
            cost = some (record { bytes = be_bytes (abs u.total_cost) });
          };
          total_value = record { bytes = be_bytes (abs u.total_cost) };
        },
        ap (λ z. record { bytes = be_bytes (abs z) }) total
            ∙ ap (λ n. record { bytes = be_bytes n }) same,
        >>-run (apply_usage (some no_usage) env.now) _ s
            (apply_usage-charged no_usage (record { bytes = be_bytes 0 }) env.now s refl)
            (>>-run (modify (end_session EndReason.complete env.now)) _ t refl (
              >>=-run (gets (λ x. x.current_rav)) _ u refl (
                >>=-run (gets (λ x. x)) _ u refl (
                  lift-run (get_usage u) _ u refl (
                    lift-run (horizon_signed_rav_to_proto s.current_rav) _ u
                      (ap horizon_signed_rav_to_proto held ∙ wire)
                      (lift-run (big_int_from_native (some u.total_cost)) _ u refl refl)))))),
      )

  -- The end of the session.
  pub operator_end-IsClosed :
      (v : ℕ) (sc : ProviderSidecar)
      → IsCharged before payer id v sc
      → (response : EndSessionResponse) × (sc' : ProviderSidecar) × (operator_end envs id sc
          ≡ (ok response, sc'))
        × (response.total_value ≡ record { bytes = be_bytes v })
        × IsClosed id v sc'
  unfolding operator_end finish_session add_usage end_session
  operator_end-IsClosed v sc h =
      let env = envs 1 in
      let (a, total, ran) = finish_body_run env h.session h.held h.given h.valued h.cost in
      let served =
        on_session_run before sc id h.sessions _ (finish_body env end_request) h.frame h.there
          ran in
      let s' =
        end_session EndReason.complete env.now
          (charged no_usage (record { bytes = be_bytes 0 }) env.now h.session) in
      (
        a,
        _,
        call_run (λ sc. finish_session sc env end_request) sc served,
        total,
        record {
          session = s';
          there = lookup-insert_self id s' h.sessions.sessions;
          over = refl;
          reason = refl;
          cost =
              ap (λ z. z +ℤ pos (set_bytes (be_bytes 0))) h.cost
              ∙ cost_bytes v 0
              ∙ ap pos (omega arith);
        },
      )
