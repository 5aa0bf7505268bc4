-- ===== src/Consumer/Report/Races/Alone.antt =====
-- The turns of one call, with no other between them, are the handler.
use substreams_data_service.Common.{
  ℕ, zero, suc, true, ◌≡◌, refl, sym, [], none, some, inl, inr, Bool-cases, Option-cases,
}
use mathlib.Core.Path.{subst}
use substreams_data_service.Common.Go.{Ptr, Go, ok, panic, Go-cases}
use substreams_data_service.Common.Action.{Action, ◌>>=◌, ◌>>◌, pure, lift, gets, modify}
use substreams_data_service.Horizon.Types.{SignedRav, message_of}
use substreams_data_service.Horizon.EthGo.{EthGo}
use substreams_data_service.Pb.{PbUsage}
use substreams_data_service.Sidecar.Convert.{horizon_signed_rav_to_proto}
use substreams_data_service.Sidecar.Session.{Session, is_active, set_rav}
use substreams_data_service.Sidecar.Usage.{apply_usage}
use substreams_data_service.Sidecar.Usage.Charged.{charged, apply_usage-charged}
use substreams_data_service.Consumer.State.{
  ConsumerConfig, ConnectError, Env, ReportUsageRequest, ReportUsageResponse, collection_or_zero,
  sign_rav,
}
use substreams_data_service.Consumer.Report.{new_value, report_active, report_body}
use substreams_data_service.Consumer.Report.Races.{
  Phase, arrived, counted, signed, outcome, sign_next, response_with, after_count, turn,
}
use substreams_data_service.Consumer.Report.Races.Turns.{apply_none, apply_missing}

module _ (eth : EthGo) (c : ConsumerConfig eth) (env : Env) where
  -- The turns of a call from a phase on, without an interruption.
  abbrev pub turns : ℕ → Phase → Session → Phase × Session
  turns zero p s = (p, s)
  turns (suc n) p s = let (p', s') = turn eth c env p s in turns n p' s'

  -- The call ends with this result.
  abbrev IsEnd : Phase × Session → Go ConnectError ReportUsageResponse × Session → Type 0
  IsEnd (p, s) (r, t) = (outcome p ≡ some r) × (s ≡ t)

  abbrev stores : SignedRav → Action Session ConnectError ReportUsageResponse
  stores rav = do
    modify (set_rav (some rav) env.now)
    proto_rav ← lift (horizon_signed_rav_to_proto (some rav))
    pure (record { updated_rav = proto_rav; should_continue = true })

  stores-turn : (rav : SignedRav) (s : Session) → IsEnd (turns 1 (signed rav) s) (stores rav s)
  unfolding turn response_with ◌>>=◌ ◌>>◌ lift modify pure
  stores-turn rav s = elim (Go-cases (horizon_signed_rav_to_proto {E = ConnectError} (some rav))) [
    | inl (a, e) ↦ rw e (refl, refl)
    | inr (inl (x, e)) ↦ rw e (refl, refl)
    | inr (inr e) ↦ rw e (refl, refl)
  ]

  abbrev signs : Ptr PbUsage → Action Session ConnectError ReportUsageResponse
  signs usage = do
    session ← gets (λ s. s)
    let message = message_of session.current_rav
    value ← lift (new_value message usage)
    updated_rav ← lift (
        sign_rav eth c (collection_or_zero message) session.payer session.data_service
          session.receiver env.unix_nano (some value) [])
    stores updated_rav

  signs-turns :
      (usage : Ptr PbUsage) (s : Session) → IsEnd (turns 2 (counted usage) s) (signs usage s)
  unfolding turn sign_next ◌>>=◌ lift gets
  signs-turns usage s =
      elim (Go-cases (new_value {E = ConnectError} (message_of s.current_rav) usage)) [
        | inl (v, e) ↦
            elim (Go-cases (
              sign_rav eth c (collection_or_zero (message_of s.current_rav)) s.payer s.data_service
                s.receiver env.unix_nano (some v) [])) [
                  | inl (rav, f) ↦ rw (e, f) (stores-turn rav s)
                  | inr (inl (x, f)) ↦ rw (e, f) (refl, refl)
                  | inr (inr f) ↦ rw (e, f) (refl, refl)
                ]
        | inr (inl (x, e)) ↦ rw e (refl, refl)
        | inr (inr e) ↦ rw e (refl, refl)
      ]

  -- After `AddUsage` came to `q`.
  abbrev IsCount : Ptr PbUsage → Go ConnectError (Unit {0}) × Session → Type 0
  IsCount usage q =
      IsEnd (turns 2 (after_count usage q).0 (after_count usage q).1)
        (◌>>=◌ (λ (_ : Session). q) (λ _. signs usage) q.1)

  IsCount-ends : (usage : Ptr PbUsage) (s : Session) → IsCount usage (ok tt, s)
  unfolding ◌>>=◌
  IsCount-ends usage s = signs-turns usage s

  IsCount-panics : (usage : Ptr PbUsage) (s : Session) → IsCount usage (panic, s)
  unfolding turn ◌>>=◌
  IsCount-panics usage s = (refl, refl)

  counts : (usage : Ptr PbUsage) (s : Session) → IsCount usage (apply_usage usage env.now s)
  counts none s = subst (IsCount none) (sym (apply_none env.now s)) (IsCount-ends none s)
  counts (some u) s = elim (Option-cases u.cost) [
    | inl e ↦
        subst (IsCount (some u)) (sym (apply_missing u env.now s e)) (IsCount-panics (some u) s)
    | inr (b, e) ↦
        subst (IsCount (some u)) (sym (apply_usage-charged {E = ConnectError} u b env.now s e))
          (IsCount-ends (some u) (charged u b env.now s))
  ]

  -- Four turns of a call in a row return what the handler returns and leave the session as the
  -- handler does.
  pub turns-report_body :
      (req : ReportUsageRequest) (s : Session)
      → (outcome (turns 4 (arrived req.usage) s).0 ≡ some (report_body eth c env req s).0)
        × ((turns 4 (arrived req.usage) s).1 ≡ (report_body eth c env req s).1)
  unfolding turn report_body report_active ◌>>=◌ ◌>>◌
  turns-report_body req s = elim (Bool-cases (is_active s)) [
    | inl on ↦ rw on (counts req.usage s)
    | inr off ↦ rw off (refl, refl)
  ]
