-- ===== src/Cmd/ConsumerClient/Calls.antt =====
-- What the calls of the client do to its session.
use substreams_data_service.Common.{
  ℕ, ◌+◌, ◌<◌, ◌^◌, ◌≡◌, refl, ap, ◌∙◌, none, some, true, String, [], arith,
}
use substreams_data_service.Common.Int.{pos, ◌+ℤ◌, abs, int_laws}
use substreams_data_service.Common.Digits.{set_bytes, be_bytes, value-digits}
use substreams_data_service.Common.Dict.{lookup, insert, lookup-insert_self}
use substreams_data_service.Common.Go.{ok}
use substreams_data_service.Common.Action.{pure, lift, gets, modify}
use substreams_data_service.Common.Action.Runs.{>>=-run, >>-run, lift-run}
use substreams_data_service.Horizon.Types.{Rav, SignedRav, message_of}
use substreams_data_service.Horizon.EthGo.{EthGo}
use substreams_data_service.Horizon.Eip712.{rav_encodable}
use substreams_data_service.Horizon.SignedMessage.{sign}
use substreams_data_service.Horizon.SignedMessage.Recovery.{sign-message}
use substreams_data_service.Horizon.SignedMessage.Total.{CanSign, sign_total}
use substreams_data_service.Pb.{PbUsage, PbBigInt, to_eth, address_from_eth, big_int_from_native}
use substreams_data_service.Sidecar.Session.{
  Session, ended, is_active, set_rav, new_session, to_session_info, add_usage, end_session,
  get_usage,
}
use substreams_data_service.Sidecar.Session.Info.{info_of}
use substreams_data_service.Sidecar.Manager.{SessionManager, create, on_created}
use substreams_data_service.Sidecar.Convert.{horizon_signed_rav_to_proto}
use substreams_data_service.Consumer.State.{
  ConsumerConfig, ConnectError, Env, ReportUsageRequest, EndSessionRequest, EndSessionResponse,
  zero_collection, sign_rav, InitResponse,
}
use substreams_data_service.Consumer.State.Issued.{horizon_signed_rav_to_proto-sent}
use substreams_data_service.Consumer.Init.{account_of, init, init_body, take_existing, initial_rav}
use substreams_data_service.Consumer.Report.Accounts.{
  value_before, next_message, reported, report_usage_signs,
}
use substreams_data_service.Consumer.Finish.Accounts.{
  finish_session_signs, final_message, settled, finished,
}
use substreams_data_service.Cmd.Batches.{no_usage}
use substreams_data_service.Cmd.ConsumerClient.{Parties, init_request, client_report, client_end}

-- The session `id` is active, and its voucher has the value `v`.
pub record IsRunning (id : String) (v : ℕ) (sm : SessionManager) : Type 0 where
  pub session : Session
  pub there : lookup id sm.sessions ≡ some session
  pub active : is_active session ≡ true
  pub before : value_before (message_of session.current_rav) ≡ some (pos v)

-- The session `id` has ended, with a voucher of the value `v`.
pub record IsSettled (id : String) (v : ℕ) (sm : SessionManager) : Type 0 where
  pub session : Session
  pub rav : SignedRav
  pub message : Rav
  pub there : lookup id sm.sessions ≡ some session
  pub over : session.state ≡ ended
  pub stored : session.current_rav ≡ some rav
  pub signed : rav.message ≡ some message
  pub value : message.value_aggregate ≡ some (pos v)

-- The bytes of a cost give the cost back.
cost_bytes : (v n : ℕ) → pos v +ℤ pos (set_bytes (be_bytes (abs (pos n)))) ≡ pos (v + n)
cost_bytes v n =
    let same : abs (pos n) ≡ n = omega arith in
    rw (same, value-digits 256 (omega arith) n) (omega int_laws)

module _ (eth : EthGo) (c : ConsumerConfig eth) (envs : ℕ → Env) (id : String) where
  -- A report of the cost `n`.
  pub client_report-IsRunning :
      (i v n : ℕ) (u : PbUsage) (sm : SessionManager)
      → CanSign eth c.domain c.signer_key
      → u.cost ≡ some (record { bytes = be_bytes (abs (pos n)) })
      → v + n < 2 ^ 256
      → IsRunning id v sm
      → (sm' : SessionManager) × (client_report eth c envs id i u sm ≡ (ok true, sm'))
        × IsRunning id (v + n) sm'
  unfolding client_report add_usage set_rav is_active pure
  client_report-IsRunning i v n u sm can cost small h =
      let env = envs i in
      let req : ReportUsageRequest = record { session_id = id; usage = some u } in
      let b : PbBigInt = record { bytes = be_bytes (abs (pos n)) } in
      let sum = pos v +ℤ pos (set_bytes b.bytes) in
      let total : sum ≡ pos (v + n) = cost_bytes v n in
      let m = next_message eth c env req h.session sum in
      let (rav, signed) =
        sign_total eth c.domain c.signer_key m (v + n) can (ap some total) small in
      let here = sign-message eth (rav_encodable eth) c.domain (some m) c.signer_key signed in
      let ran =
        report_usage_signs eth c env req sm h.session u b (pos v) rav h.there h.active refl cost
          h.before signed in
      let s' = reported eth c env req h.session u b rav in
      (
        record { sessions = insert id s' sm.sessions },
        >>=-run _ (λ response. pure response.should_continue) sm ran refl,
        record {
          session = s';
          there = lookup-insert_self id s' sm.sessions;
          active = h.active;
          before = ap value_before here ∙ ap some total;
        },
      )

  -- The end of the session, which reports no cost.
  pub client_end-IsSettled :
      (env : Env) (v : ℕ) (sm : SessionManager)
      → CanSign eth c.domain c.signer_key
      → v < 2 ^ 256
      → IsRunning id v sm
      → (response : EndSessionResponse) × (sm' : SessionManager) × (client_end eth c envs id env sm
          ≡ (ok response, sm'))
        × IsSettled id v sm'
  unfolding client_end add_usage set_rav end_session
  client_end-IsSettled env v sm can small h =
      let req : EndSessionRequest = record { session_id = id; final_usage = some no_usage } in
      let b : PbBigInt = record { bytes = be_bytes 0 } in
      let sum = pos v +ℤ pos (set_bytes b.bytes) in
      let zero : set_bytes b.bytes ≡ 0 = value-digits 256 (omega arith) 0 in
      let total : sum ≡ pos v = rw zero (omega int_laws) in
      let s' = settled (some no_usage) b env.now h.session in
      let m = final_message eth c env req s' sum in
      let (rav, signed) = sign_total eth c.domain c.signer_key m v can (ap some total) small in
      let here = sign-message eth (rav_encodable eth) c.domain (some m) c.signer_key signed in
      let ran =
        finish_session_signs eth c env req sm h.session b (pos v) rav h.there refl h.before
          signed in
      let done = finished eth c env req h.session b rav in
      (
        _,
        record { sessions = insert id done sm.sessions },
        ran,
        record {
          session = done;
          rav = rav;
          message = m;
          there = lookup-insert_self id done sm.sessions;
          over = refl;
          stored = refl;
          signed = here;
          value = ap some total;
        },
      )

module _ (eth : EthGo) (c : ConsumerConfig eth) (env : Env) (parties : Parties) where
  abbrev opened : Session
  opened = new_session env.fresh_id env.now parties.payer parties.receiver parties.data_service

  abbrev first_message : Rav
  first_message = record {
    collection_id = zero_collection;
    payer = parties.payer;
    service_provider = parties.receiver;
    data_service = parties.data_service;
    timestamp_ns = env.unix_nano;
    value_aggregate = some (pos 0);
    metadata = [];
  }

  init_body_signs :
      (rav : SignedRav)
      → sign eth (rav_encodable eth) c.domain (some first_message) c.signer_key ≡ ok rav
      → (response : InitResponse) × (response.session.session_id ≡ env.fresh_id)
        × (init_body eth c env (init_request parties) opened
            ≡ (ok response, set_rav (some rav) env.now opened))
  unfolding init_body take_existing initial_rav init_request new_session set_rav to_session_info
      get_usage big_int_from_native gets lift modify pure sign_rav
  init_body_signs rav signed =
      let here =
        sign-message eth (rav_encodable eth) c.domain (some first_message) c.signer_key signed in
      let wire = horizon_signed_rav_to_proto-sent {E = ConnectError} rav here refl in
      let s' = set_rav (some rav) env.now opened in
      let (info, named, shown) = info_of s' wire in
      (
        _,
        named,
        >>=-run (take_existing env none) _ opened refl (
            >>=-run (initial_rav eth c env none) _ opened
              (>>=-run (gets (λ s. s)) _ opened refl (
                lift-run
                  (sign_rav eth c zero_collection parties.payer parties.data_service
                    parties.receiver env.unix_nano (some (pos 0)) [])
                  _ opened (rw (sign_rav, signed) refl)
                  (>>-run (modify (set_rav (some rav) env.now)) _ opened refl refl)))
              (>>=-run (gets (λ s. s)) _ s' refl (
                lift-run (to_session_info s') _ s' shown
                  (lift-run (horizon_signed_rav_to_proto (some rav)) _ s' wire refl)))),
      )

  -- A new session starts with a voucher of the value zero.
  pub init-IsRunning :
      (sm : SessionManager)
      → CanSign eth c.domain c.signer_key
      → (response : InitResponse) × (sm' : SessionManager) × (response.session.session_id
          ≡ env.fresh_id)
        × (init eth c env (init_request parties) sm ≡ (ok response, sm'))
        × IsRunning env.fresh_id 0 sm'
  unfolding init account_of init_request to_eth address_from_eth on_created create new_session
      set_rav is_active
  init-IsRunning sm can =
      let (rav, signed) =
        sign_total eth c.domain c.signer_key first_message 0 can refl (omega arith) in
      let here =
        sign-message eth (rav_encodable eth) c.domain (some first_message) c.signer_key signed in
      let (response, named, ran) = init_body_signs rav signed in
      let s' = set_rav (some rav) env.now opened in
      let sessions = insert env.fresh_id s' (insert env.fresh_id opened sm.sessions) in
      (
        response,
        record { sessions = sessions },
        named,
        rw ran refl,
        record {
          session = s';
          there = lookup-insert_self env.fresh_id s' (insert env.fresh_id opened sm.sessions);
          active = refl;
          before = ap value_before here;
        },
      )
