-- ===== src/Consumer/Report/Races/Overlap.antt =====
-- Two reports whose turns meet: one of the costs is counted and not signed for.
use substreams_data_service.Common.{ℕ, ◌+◌, ◌<◌, ◌^◌, ◌≡◌, refl, ap, ◌∙◌, List, [], ◌∷◌, some, true}
use substreams_data_service.Common.Int.{ℤ, pos, ◌+ℤ◌, int_laws}
use substreams_data_service.Common.Digits.{set_bytes}
use substreams_data_service.Common.Go.{Ptr, ok}
use substreams_data_service.Horizon.Types.{Rav, SignedRav, message_of}
use substreams_data_service.Horizon.EthGo.{EthGo}
use substreams_data_service.Horizon.Eip712.{rav_encodable}
use substreams_data_service.Horizon.SignedMessage.Recovery.{sign-message}
use substreams_data_service.Horizon.SignedMessage.Total.{CanSign, sign_total}
use substreams_data_service.Pb.{PbUsage, PbBigInt}
use substreams_data_service.Sidecar.Session.{Session, is_active, set_rav, add_usage}
use substreams_data_service.Sidecar.Usage.Charged.{charged, apply_usage-charged}
use substreams_data_service.Consumer.State.{
  ConsumerConfig, ConnectError, Env, ReportUsageResponse, sign_rav, collection_or_zero,
}
use substreams_data_service.Consumer.State.Issued.{sent, horizon_signed_rav_to_proto-sent}
use substreams_data_service.Consumer.Report.Accounts.{value_before, new_value-sum}
use substreams_data_service.Consumer.Report.Races.{
  Phase, arrived, running, counted, signed, answered, System, sign_next, response_with, turn,
  turn_of, call_turn, run_turns, arrivals,
}

module _ (eth : EthGo) (c : ConsumerConfig eth) (env : Env) where
  -- The message that `sign_next` signs.
  abbrev drawn : Session → ℤ → Rav
  drawn s v = record {
    collection_id = collection_or_zero (message_of s.current_rav);
    payer = s.payer;
    service_provider = s.receiver;
    data_service = s.data_service;
    timestamp_ns = env.unix_nano;
    value_aggregate = some v;
    metadata = [];
  }

  sum_of : (v : ℕ) (b : PbBigInt) → pos v +ℤ pos (set_bytes b.bytes) ≡ pos (v + set_bytes b.bytes)
  sum_of v b = omega int_laws

  sign_next_total :
      (u : PbUsage) (b : PbBigInt) (s : Session) (v : ℕ)
      → CanSign eth c.domain c.signer_key
      → u.cost ≡ some b
      → value_before (message_of s.current_rav) ≡ some (pos v)
      → v + set_bytes b.bytes < 2 ^ 256
      → (rav : SignedRav) × (sign_next eth c env (some u) s ≡ ok rav)
        × (rav.message ≡ some (drawn s (pos (v + set_bytes b.bytes))))
  unfolding sign_next sign_rav
  sign_next_total u b s v can cost before small =
      let m = drawn s (pos (v + set_bytes b.bytes)) in
      let (rav, made) =
        sign_total eth c.domain c.signer_key m (v + set_bytes b.bytes) can refl small in
      let value =
        new_value-sum {E = ConnectError} (message_of s.current_rav) u b (pos v) before cost
        ∙ ap ok (sum_of v b) in
      (
        rav,
        rw (value, sign_rav, made) refl,
        sign-message eth (rav_encodable eth) c.domain (some m) c.signer_key made,
      )

  response_total :
      (rav : SignedRav) (s : Session) (v : ℤ)
      → rav.message ≡ some (drawn s v)
      → (a : ReportUsageResponse) × (response_with eth c rav ≡ ok a)
  unfolding response_with
  response_total rav s v here =
      let wire = horizon_signed_rav_to_proto-sent {E = ConnectError} rav here refl in
      (record { updated_rav = some (sent rav (drawn s v) v); should_continue = true }, rw wire refl)

  first_turn :
      (rest : List ℕ) (p q : Phase) (s : Session) {p' : Phase} {s' : Session}
      → turn eth c env p s ≡ (p', s')
      → run_turns eth c env (0 ∷ rest) (record { session = s; calls = p ∷ q ∷ [] })
        ≡ run_turns eth c env rest (record { session = s'; calls = p' ∷ q ∷ [] })
  unfolding run_turns call_turn turn_of
  first_turn rest p q s h =
      ap (λ x. run_turns eth c env rest (record { session = x.1; calls = x.0 ∷ q ∷ [] })) h

  second_turn :
      (rest : List ℕ) (p q : Phase) (s : Session) {q' : Phase} {s' : Session}
      → turn eth c env q s ≡ (q', s')
      → run_turns eth c env (1 ∷ rest) (record { session = s; calls = p ∷ q ∷ [] })
        ≡ run_turns eth c env rest (record { session = s'; calls = p ∷ q' ∷ [] })
  unfolding run_turns call_turn turn_of
  second_turn rest p q s h =
      ap (λ x. run_turns eth c env rest (record { session = x.1; calls = p ∷ x.0 ∷ [] })) h

  turn_arrives :
      (u : Ptr PbUsage) (s : Session)
      → is_active s ≡ true
      → turn eth c env (arrived u) s ≡ (running u, s)
  unfolding turn
  turn_arrives u s h = rw h refl

  turn_counts :
      (u : PbUsage) (b : PbBigInt) (s : Session)
      → u.cost ≡ some b
      → turn eth c env (running (some u)) s ≡ (counted (some u), charged u b env.now s)
  unfolding turn
  turn_counts u b s h = rw (apply_usage-charged {E = ConnectError} u b env.now s h) refl

  turn_signs :
      (u : Ptr PbUsage) (s : Session) {rav : SignedRav}
      → sign_next eth c env u s ≡ ok rav
      → turn eth c env (counted u) s ≡ (signed rav, s)
  unfolding turn
  turn_signs u s h = rw h refl

  turn_stores :
      (rav : SignedRav) (s : Session) {a : ReportUsageResponse}
      → response_with eth c rav ≡ ok a
      → turn eth c env (signed rav) s ≡ (answered a, set_rav (some rav) env.now s)
  unfolding turn
  turn_stores rav s h = rw h refl

  -- Two reports on an active session whose turns meet are both answered, and the total cost counts
  -- both, but the voucher's value grows by the first cost alone, if both vouchers can be signed.
  pub run_turns_loses :
      (s : Session) (u t : PbUsage) (b d : PbBigInt) (v : ℕ)
      → CanSign eth c.domain c.signer_key
      → is_active s ≡ true
      → u.cost ≡ some b
      → t.cost ≡ some d
      → value_before (message_of s.current_rav) ≡ some (pos v)
      → v + set_bytes b.bytes < 2 ^ 256
      → v + set_bytes d.bytes < 2 ^ 256
      → (a : ReportUsageResponse) × (e : ReportUsageResponse) × (last : System) × (run_turns eth c
            env
            (0 ∷ 0 ∷ 1 ∷ 1 ∷ 0 ∷ 1 ∷ 1 ∷ 0 ∷ [])
            (record { session = s; calls = arrivals (some u ∷ some t ∷ []) })
          ≡ last)
        × (last.calls ≡ answered a ∷ answered e ∷ [])
        × (value_before (message_of last.session.current_rav) ≡ some (pos (v + set_bytes b.bytes)))
        × (last.session.total_cost
            ≡ s.total_cost +ℤ pos (set_bytes b.bytes) +ℤ pos (set_bytes d.bytes))
  unfolding arrivals add_usage set_rav is_active run_turns
  run_turns_loses s u t b d v can on cost cost' before small small' =
      let s1 = charged u b env.now s in
      let s2 = charged t d env.now s1 in
      let (rav, e, here) = sign_next_total u b s2 v can cost before small in
      let (rav', e', here') = sign_next_total t d s2 v can cost' before small' in
      let (a, f) = response_total rav s2 _ here in
      let (a', f') = response_total rav' s2 _ here' in
      let s3 = set_rav (some rav') env.now s2 in
      let s4 = set_rav (some rav) env.now s3 in
      let whole =
        first_turn (0 ∷ 1 ∷ 1 ∷ 0 ∷ 1 ∷ 1 ∷ 0 ∷ []) (arrived (some u)) (arrived (some t)) s
          (turn_arrives (some u) s on)
        ∙ first_turn (1 ∷ 1 ∷ 0 ∷ 1 ∷ 1 ∷ 0 ∷ []) (running (some u)) (arrived (some t)) s
            (turn_counts u b s cost)
        ∙ second_turn (1 ∷ 0 ∷ 1 ∷ 1 ∷ 0 ∷ []) (counted (some u)) (arrived (some t)) s1
            (turn_arrives (some t) s1 on)
        ∙ second_turn (0 ∷ 1 ∷ 1 ∷ 0 ∷ []) (counted (some u)) (running (some t)) s1
            (turn_counts t d s1 cost')
        ∙ first_turn (1 ∷ 1 ∷ 0 ∷ []) (counted (some u)) (counted (some t)) s2
            (turn_signs (some u) s2 e)
        ∙ second_turn (1 ∷ 0 ∷ []) (signed rav) (counted (some t)) s2 (turn_signs (some t) s2 e')
        ∙ second_turn (0 ∷ []) (signed rav) (signed rav') s2 (turn_stores rav' s2 f')
        ∙ first_turn [] (signed rav) (answered a') s3 (turn_stores rav s3 f) in
      (
        a,
        a',
        record { session = s4; calls = answered a ∷ answered a' ∷ [] },
        whole,
        refl,
        ap value_before here,
        refl,
      )
