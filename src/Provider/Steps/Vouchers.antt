-- ===== src/Provider/Steps/Vouchers.antt =====
-- The value of a session's voucher does not fall, but for `ValidatePayment`, which replaces it.
use substreams_data_service.Common.{ℕ, ◌≡◌, none, some, String, Bool-cases, inl, inr, arith}
use substreams_data_service.Common.Int.{ℤ, ◌≤ℤ◌}
use substreams_data_service.Common.Dict.{lookup}
use substreams_data_service.Common.Go.{Ptr, Go, ok, err, panic, Go-cases}
use substreams_data_service.Common.Action.Keeps.{
  Keeps, Preorder, Keeps->>=, Keeps->>, Keeps-pure, Keeps-lift, Keeps-gets, Keeps-modify,
}
use substreams_data_service.Horizon.Types.{Rav, message_of}
use substreams_data_service.Horizon.EthGo.{EthGo}
use substreams_data_service.Pb.{PbUsage, EndReason}
use substreams_data_service.Sidecar.Session.{Session, is_active, add_usage, end_session, set_rav}
use substreams_data_service.Sidecar.Usage.{apply_usage}
use substreams_data_service.Sidecar.Manager.Frame.{Evolves, on_session-Evolves, on_created-Evolves}
use substreams_data_service.Provider.State.{ProviderSidecar, Env, add_accepted_signer}
use substreams_data_service.Provider.Messages.{
  ReportUsageRequest, EndSessionRequest, StartSessionRequest, StartSessionResponse,
  SubmitRavRequest,
}
use substreams_data_service.Provider.Report.{report_usage, report_body, add_reported}
use substreams_data_service.Provider.Finish.{finish_session, finish_body}
use substreams_data_service.Provider.Start.{
  start_session, start_result, start_body, start_checks, Opening,
}
use substreams_data_service.Provider.Submit.{submit_rav, submit_result, submit_body, submit_checks}
use substreams_data_service.Provider.Submit.Outcome.{IsAtMost, NotBelow, checks_sound}
use substreams_data_service.Provider.Steps.{
  Call, validate, report, finish, start, submit, accept, serve,
}

abbrev pub value_of : Ptr Rav → Ptr ℤ
value_of none = none
value_of (some m) = m.value_aggregate

-- A value that was there is there, and has not fallen.
abbrev pub Rises : Ptr ℤ → Ptr ℤ → Type 0
Rises none q = Unit
Rises (some w) none = ⊥
Rises (some w) (some v) = w ≤ℤ v

pub record Raised (s t : Session) : Type 0 where
  pub value : Rises (value_of (message_of s.current_rav)) (value_of (message_of t.current_rav))

pub Rises-refl : (p : Ptr ℤ) → Rises p p
Rises-refl none = tt
Rises-refl (some w) = omega arith

pub Rises-trans : (p q r : Ptr ℤ) → Rises p q → Rises q r → Rises p r
Rises-trans none q r h k = tt
Rises-trans (some w) none r h k = absurd h
Rises-trans (some w) (some v) none h k = k
Rises-trans (some w) (some v) (some u) h k = omega arith

Raised-refl : (s : Session) → Raised s s
Raised-refl s = record { value = Rises-refl (value_of (message_of s.current_rav)) }

Raised-Preorder : Preorder Raised
Raised-Preorder = record {
  rel_refl = Raised-refl;
  rel_trans = λ s t u a b. record {
    value =
        Rises-trans (value_of (message_of s.current_rav)) (value_of (message_of t.current_rav))
          (value_of (message_of u.current_rav)) a.value b.value;
  };
}

add_usage-Raised :
    (blocks bytes requests : ℕ) (cost : Ptr ℤ) (now : ℕ) (s : Session)
    → Raised s (add_usage blocks bytes requests cost now s)
unfolding add_usage
add_usage-Raised blocks bytes requests cost now s = record {
  value = Rises-refl (value_of (message_of s.current_rav));
}

end_session-Raised :
    (reason : EndReason) (now : ℕ) (s : Session) → Raised s (end_session reason now s)
unfolding end_session
end_session-Raised reason now s = record {
  value = Rises-refl (value_of (message_of s.current_rav));
}

ruleset vouchers = (
  Keeps->>=, Keeps->>, Keeps-pure, Keeps-lift, Keeps-gets, Keeps-modify, Raised-Preorder,
  add_usage-Raised, end_session-Raised,
)

apply_usage-Raised :
    {E : Type 0} (usage : Ptr PbUsage) (now : ℕ) → Keeps Raised (apply_usage {E = E} usage now)
unfolding apply_usage
apply_usage-Raised none now = search vouchers depth 12
apply_usage-Raised (some u) now = search vouchers depth 12

add_reported-Raised : (env : Env) (req : ReportUsageRequest) → Keeps Raised (add_reported env req)
unfolding add_reported
add_reported-Raised env req = search (vouchers, apply_usage-Raised) depth 12

report_body-Raised : (env : Env) (req : ReportUsageRequest) → Keeps Raised (report_body env req)
unfolding report_body
report_body-Raised env req = record {
  run = λ s. elim (Bool-cases (is_active s)) [
    | inl running ↦ rw running ((add_reported-Raised env req).run s)
    | inr idle ↦ rw idle (Raised-refl s)
  ];
}

finish_body-Raised : (env : Env) (req : EndSessionRequest) → Keeps Raised (finish_body env req)
unfolding finish_body
finish_body-Raised env req = search (vouchers, apply_usage-Raised) depth 20

-- Every call but `ValidatePayment`.
abbrev pub IsOrdinary : Call → Type 0
IsOrdinary (validate req) = ⊥
IsOrdinary (report req) = Unit
IsOrdinary (finish req) = Unit
IsOrdinary (start req) = Unit
IsOrdinary (submit req) = Unit
IsOrdinary (accept a) = Unit

at_most : (p q : Ptr ℤ) → IsAtMost p q → Rises p q
at_most none q h = tt
at_most (some w) none h = h
at_most (some w) (some v) h = h

pub NotBelow-Rises :
    (old : Ptr Rav) (m : Rav) → NotBelow old m → Rises (value_of old) m.value_aggregate
NotBelow-Rises none m h = tt
NotBelow-Rises (some o) m h = at_most o.value_aggregate m.value_aggregate h

module _ (eth : EthGo) where
  submit_body-Raised :
      (sc : ProviderSidecar) (env : Env) (req : SubmitRavRequest)
      → Keeps Raised (submit_body eth sc env req)
  unfolding submit_body submit_result set_rav
  submit_body-Raised sc env req = record {
    run = λ s. elim (Go-cases (submit_checks eth sc req s)) [
      | inl (rav, e) ↦
          let (m, a) = checks_sound eth sc req s e in
          rw e (record { value = rw a.here (NotBelow-Rises (message_of s.current_rav) m a.value) })
      | inr (inl (x, e)) ↦ rw e (Raised-refl s)
      | inr (inr e) ↦ rw e (Raised-refl s)
    ];
  }

  started :
      (sc : ProviderSidecar) (env : Env) (req : StartSessionRequest)
      (r : Go StartSessionResponse Opening)
      → lookup env.fresh_id sc.sessions.sessions ≡ none
      → Evolves Raised sc.sessions (start_result sc env req r).1.sessions
  unfolding start_result
  started sc env req (ok o) fresh =
      on_created-Evolves Raised Raised-refl env.fresh_id env.now o.payer sc.service_provider
        o.data_service sc.sessions (start_body env req o.initial_rav) fresh
  started sc env req (err response) fresh = λ id s h. (s, h, Raised-refl s)
  started sc env req panic fresh = λ id s h. (s, h, Raised-refl s)

  -- After a call other than `ValidatePayment`, with an identifier that no session has, each
  -- session is still there, and a voucher value that it had has not fallen.
  pub serve-Raised :
      (env : Env) (c : Call) (sc : ProviderSidecar)
      → IsOrdinary c
      → lookup env.fresh_id sc.sessions.sessions ≡ none
      → (id : String) (s : Session) → lookup id sc.sessions.sessions ≡ some s
      → (s' : Session) × (lookup id (serve eth env c sc).sessions.sessions ≡ some s') × Raised s s'
  unfolding serve report_usage finish_session start_session submit_rav add_accepted_signer
  serve-Raised env (validate req) sc calm fresh = absurd calm
  serve-Raised env (report req) sc calm fresh =
      on_session-Evolves Raised Raised-refl req.session_id _ (report_body env req) sc.sessions
        (report_body-Raised env req)
  serve-Raised env (finish req) sc calm fresh =
      on_session-Evolves Raised Raised-refl req.session_id _ (finish_body env req) sc.sessions
        (finish_body-Raised env req)
  serve-Raised env (start req) sc calm fresh = started sc env req (start_checks eth sc req) fresh
  serve-Raised env (submit req) sc calm fresh =
      on_session-Evolves Raised Raised-refl req.session_id _ (submit_body eth sc env req)
        sc.sessions (submit_body-Raised sc env req)
  serve-Raised env (accept a) sc calm fresh = λ id s h. (s, h, Raised-refl s)
