-- ===== src/Provider/Submit/Races/Falls.antt =====
-- What the turns of concurrent calls can do to the value of a session's voucher.
use substreams_data_service.Common.{
  ℕ, ◌==◌, ◌≡◌, refl, ap, ◌∙◌, List, [], ◌∷◌, some, none, inl, inr, Bool-cases,
}
use substreams_data_service.Common.Int.{ℤ}
use substreams_data_service.Common.Go.{Ptr, ok, Go-cases}
use substreams_data_service.Horizon.Types.{Rav, SignedRav, message_of}
use substreams_data_service.Horizon.EthGo.{EthGo}
use substreams_data_service.Sidecar.Session.{
  Session, active, is_active, set_rav, add_usage, end_session,
}
use substreams_data_service.Provider.State.{ProviderSidecar, Env}
use substreams_data_service.Provider.Messages.{SubmitRavRequest}
use substreams_data_service.Provider.Submit.{
  accepted_response, voucher_checks, submit_checks, submit_body, submit_result,
}
use substreams_data_service.Provider.Submit.Outcome.{
  IsAcceptable, NotBelow, checks_sound, checks_complete,
}
use substreams_data_service.Provider.Steps.Vouchers.{
  value_of, Rises, Rises-refl, Rises-trans, NotBelow-Rises,
}
use substreams_data_service.Provider.Submit.Races.{
  Phase, arrived, checked, approved, answered, crashed, System, update, turn, call_turn, initial,
  outcome, Step, submits, uses, ends, Reach, here, next, run_turns,
}

abbrev IsFrom : ℤ → Ptr SignedRav → Type 0
IsFrom w p = Rises (some w) (value_of (message_of p))

abbrev IsPending : ℤ → Phase → Type 0
IsPending w (arrived req) = Unit
IsPending w (checked req) = Unit
IsPending w (approved rav) = IsFrom w (some rav)
IsPending w (answered response) = Unit
IsPending w crashed = Unit

-- The values of the session's voucher and of those that calls are about to store are at least `w`.
record IsAbove (w : ℤ) (sys : System) : Type 0 where
  held : IsFrom w sys.session.current_rav
  pending : (i : ℕ) → IsPending w (sys.calls i)

update-IsPending :
    (w : ℤ) (calls : ℕ → Phase) (i : ℕ) (p : Phase)
    → ((j : ℕ) → IsPending w (calls j))
    → IsPending w p
    → (j : ℕ) → IsPending w (update calls i p j)
update-IsPending w calls i p h k j = elim (Bool-cases (i == j)) [
  | inl same ↦ rw same k
  | inr other ↦ rw other (h j)
]

module _ (eth : EthGo) (sc : ProviderSidecar) where
  -- The state of the session does not matter to the checks after its test.
  voucher_checks_sound :
      (req : SubmitRavRequest) (s : Session) {rav : SignedRav}
      → voucher_checks eth sc req s ≡ ok rav
      → (m : Rav) × (rav.message ≡ some m) × NotBelow (message_of s.current_rav) m
  unfolding submit_checks voucher_checks is_active
  voucher_checks_sound req s h =
      let (m, a) = checks_sound eth sc req (record s { state = active }) h in (m, a.here, a.value)

  turn-IsPending :
      (w : ℤ) (env : Env) (p : Phase) (s : Session)
      → IsFrom w s.current_rav
      → IsPending w p
      → IsPending w (turn eth sc env p s).0 × IsFrom w (turn eth sc env p s).1.current_rav
  unfolding turn set_rav
  turn-IsPending w env (arrived req) s h k = elim (Bool-cases (is_active s)) [
    | inl running ↦ rw running (tt, h)
    | inr idle ↦ rw idle (tt, h)
  ]
  turn-IsPending w env (checked req) s h k = elim (Go-cases (voucher_checks eth sc req s)) [
    | inl (rav, e) ↦
        let (m, held, above) = voucher_checks_sound req s e in
        let from : IsFrom w (some rav) = rw held (
          Rises-trans (some w) (value_of (message_of s.current_rav)) m.value_aggregate h
            (NotBelow-Rises (message_of s.current_rav) m above)) in
        rw e (from, h)
    | inr (inl (x, e)) ↦ rw e (tt, h)
    | inr (inr e) ↦ rw e (tt, h)
  ]
  turn-IsPending w env (approved rav) s h k = (tt, k)
  turn-IsPending w env (answered response) s h k = (tt, h)
  turn-IsPending w env crashed s h k = (tt, h)

  Step-IsAbove : (w : ℤ) {sys t : System} → IsAbove w sys → Step eth sc sys t → IsAbove w t
  unfolding call_turn add_usage end_session
  Step-IsAbove w {sys} h (submits env i) =
      let (p, s) = turn-IsPending w env (sys.calls i) sys.session h.held (h.pending i) in
      record {
        held = s;
        pending =
            update-IsPending w sys.calls i (turn eth sc env (sys.calls i) sys.session).0 h.pending
              p;
      }
  Step-IsAbove w h (uses blocks bytes requests cost now) = record {
    held = h.held;
    pending = h.pending;
  }
  Step-IsAbove w h (ends reason now) = record { held = h.held; pending = h.pending }

  Reach-IsAbove : (w : ℤ) {sys t : System} → IsAbove w sys → Reach eth sc sys t → IsAbove w t
  Reach-IsAbove w h here = h
  Reach-IsAbove w h (next before step) = Step-IsAbove w (Reach-IsAbove w h before) step

  rises_from : (p q : Ptr ℤ) → ((w : ℤ) → p ≡ some w → Rises (some w) q) → Rises p q
  rises_from none q h = tt
  rises_from (some w) q h = h w refl

  -- Whatever the order of the turns of concurrent `SubmitRAV` calls, of usage reports and of ends of
  -- the session, the value of the session's voucher does not fall below what it was before them.
  pub Reach-Rises :
      (s : Session) (requests : ℕ → SubmitRavRequest) {t : System}
      → Reach eth sc (initial s requests) t
      → Rises (value_of (message_of s.current_rav)) (value_of (message_of t.session.current_rav))
  Reach-Rises s requests reach = rises_from (value_of (message_of s.current_rav)) _ λ w e.
      (Reach-IsAbove w (record { held = rw e (Rises-refl (some w)); pending = λ i. tt }) reach).held

  -- Three turns of a call in a row return what the handler returns and leave the session as the
  -- handler does.
  pub run_turns-submit_body :
      (env : Env) (s : Session) (requests : ℕ → SubmitRavRequest)
      → (outcome ((run_turns eth sc env (0 ∷ 0 ∷ 0 ∷ []) (initial s requests)).calls 0)
          ≡ some (submit_body eth sc env (requests 0) s).0)
        × ((run_turns eth sc env (0 ∷ 0 ∷ 0 ∷ []) (initial s requests)).session
            ≡ (submit_body eth sc env (requests 0) s).1)
  unfolding run_turns call_turn turn submit_body submit_result submit_checks
  run_turns-submit_body env s requests = elim (Bool-cases (is_active s)) [
    | inl running ↦ elim (Go-cases (voucher_checks eth sc (requests 0) s)) [
      | inl (rav, e) ↦ rw (running, e) (refl, refl)
      | inr (inl (x, e)) ↦ rw (running, e) (refl, refl)
      | inr (inr e) ↦ rw (running, e) (refl, refl)
    ]
    | inr idle ↦ rw idle (refl, refl)
  ]

  voucher_checks_complete :
      (req : SubmitRavRequest) (s : Session) {rav : SignedRav} {m : Rav}
      → IsAcceptable eth sc req s rav m
      → voucher_checks eth sc req s ≡ ok rav
  unfolding submit_checks voucher_checks
  voucher_checks_complete req s {rav} {m} a =
      let whole = checks_complete eth sc req s rav m a in rw a.running at whole

  run_turns_next :
      (env : Env) (i : ℕ) (rest : List ℕ) (sys : System) {p : Phase} {s : Session}
      → turn eth sc env (sys.calls i) sys.session ≡ (p, s)
      → run_turns eth sc env (i ∷ rest) sys
        ≡ run_turns eth sc env rest (record { session = s; calls = update sys.calls i p })
  unfolding run_turns call_turn
  run_turns_next env i rest sys h =
      ap (λ x. run_turns eth sc env rest (record { session = x.1; calls = update sys.calls i x.0 }))
        h

  -- Of two calls with vouchers that are acceptable to a session, the first may be stored last,
  -- whatever the values: both are answered as accepted, and the session holds the first voucher.
  pub run_turns_races :
      (env : Env) (s : Session) (requests : ℕ → SubmitRavRequest) {first second : SignedRav}
      {m n : Rav}
      → IsAcceptable eth sc (requests 0) s first m
      → IsAcceptable eth sc (requests 1) s second n
      → ((run_turns eth sc env (0 ∷ 0 ∷ 1 ∷ 1 ∷ 1 ∷ 0 ∷ []) (initial s requests)).calls 0
          ≡ answered accepted_response)
        × ((run_turns eth sc env (0 ∷ 0 ∷ 1 ∷ 1 ∷ 1 ∷ 0 ∷ []) (initial s requests)).calls 1
            ≡ answered accepted_response)
        × ((run_turns eth sc env
              (0 ∷ 0 ∷ 1 ∷ 1 ∷ 1 ∷ 0 ∷ [])
              (initial s requests)).session.current_rav
            ≡ some first)
  unfolding run_turns call_turn turn set_rav
  run_turns_races env s requests {first} {second} a b =
      let e : turn eth sc env (arrived (requests 0)) s ≡ (checked (requests 0), s) =
        rw a.running refl in
      let f : turn eth sc env (checked (requests 0)) s ≡ (approved first, s) =
        rw (voucher_checks_complete (requests 0) s a) refl in
      let g : turn eth sc env (arrived (requests 1)) s ≡ (checked (requests 1), s) =
        rw a.running refl in
      let h : turn eth sc env (checked (requests 1)) s ≡ (approved second, s) =
        rw (voucher_checks_complete (requests 1) s b) refl in
      let c0 = (initial s requests).calls in
      let c1 = update c0 0 (checked (requests 0)) in
      let c2 = update c1 0 (approved first) in
      let c3 = update c2 1 (checked (requests 1)) in
      let c4 = update c3 1 (approved second) in
      let whole =
        run_turns_next env 0 (0 ∷ 1 ∷ 1 ∷ 1 ∷ 0 ∷ []) (initial s requests) e
        ∙ run_turns_next env 0 (1 ∷ 1 ∷ 1 ∷ 0 ∷ []) (record { session = s; calls = c1 }) f
        ∙ run_turns_next env 1 (1 ∷ 1 ∷ 0 ∷ []) (record { session = s; calls = c2 }) g
        ∙ run_turns_next env 1 (1 ∷ 0 ∷ []) (record { session = s; calls = c3 }) h in
      (ap (λ x. x.calls 0) whole, ap (λ x. x.calls 1) whole, ap (λ x. x.session.current_rav) whole)
