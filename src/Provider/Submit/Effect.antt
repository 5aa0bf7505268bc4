-- ===== src/Provider/Submit/Effect.antt =====
-- What `SubmitRAV` leaves in the session manager.
use substreams_data_service.Common.{◌≡◌, refl, some, false, inl, inr}
use substreams_data_service.Common.Dict.{lookup, insert, insert-lookup}
use substreams_data_service.Common.Go.{ok, Go-cases}
use substreams_data_service.Horizon.Types.{Rav, SignedRav}
use substreams_data_service.Horizon.EthGo.{EthGo}
use substreams_data_service.Sidecar.Session.{Session, set_rav}
use substreams_data_service.Sidecar.Manager.Frame.{on_session-found}
use substreams_data_service.Provider.State.{ProviderSidecar, Env}
use substreams_data_service.Provider.Messages.{Reason, SubmitRavRequest}
use substreams_data_service.Provider.Submit.{
  rejected, accepted_response, submit_result, submit_checks, submit_body, submit_rav,
}
use substreams_data_service.Provider.Submit.Outcome.{IsAcceptable, checks_sound, checks_complete}

module _ (eth : EthGo) (sc : ProviderSidecar) (env : Env) (req : SubmitRavRequest) where
  -- A voucher that meets the conditions for a session of the manager is accepted: the session
  -- holds it afterwards, and nothing else of the sidecar changes.
  pub submit_rav_stores :
      {s : Session} {rav : SignedRav} {m : Rav}
      → lookup req.session_id sc.sessions.sessions ≡ some s
      → IsAcceptable eth sc req s rav m
      → submit_rav eth sc env req ≡ (
        ok accepted_response,
        record sc {
          sessions = record {
            sessions = insert req.session_id (set_rav (some rav) env.now s) sc.sessions.sessions;
          };
        },
      )
  unfolding submit_rav submit_body submit_result
  submit_rav_stores {s} {rav} {m} there a =
      rw
        (
          on_session-found req.session_id (ok (rejected Reason.session_not_found false))
              (submit_body eth sc env req) sc.sessions there,
          checks_complete eth sc req s rav m a,
        )
        refl

  -- If no voucher meets the conditions, the sidecar is as it was, whatever the response.
  pub submit_rav_keeps :
      {s : Session}
      → lookup req.session_id sc.sessions.sessions ≡ some s
      → ¬ ((rav : SignedRav) × (m : Rav) × IsAcceptable eth sc req s rav m)
      → (submit_rav eth sc env req).1 ≡ sc
  unfolding submit_rav submit_body submit_result
  submit_rav_keeps {s} there refused =
      let found =
        on_session-found req.session_id (ok (rejected Reason.session_not_found false))
          (submit_body eth sc env req) sc.sessions there in
      let same = insert-lookup req.session_id s sc.sessions.sessions there in
      elim (Go-cases (submit_checks eth sc req s)) [
        | inl (rav, e) ↦ let (m, a) = checks_sound eth sc req s e in absurd (refused (rav, m, a))
        | inr (inl (x, e)) ↦ rw (found, e, same) refl
        | inr (inr e) ↦ rw (found, e, same) refl
      ]
