-- ===== src/Sidecar/Manager/Frame.antt =====
-- What a handler does to the map of sessions.
use text.Mathlib.Text.{◌==◌}
use text.Mathlib.TextEquality.{eq_iff}
use substreams_data_service.Common.{
  ℕ, ◌≡◌, refl, sym, ap, ◌∙◌, none, some, String, Option-cases, Bool-cases, inl, inr,
}
use mathlib.Core.Path.{subst}
use substreams_data_service.Common.Dict.{lookup, insert, lookup-insert}
use substreams_data_service.Common.Go.{Go}
use substreams_data_service.Common.Action.{Action}
use substreams_data_service.Common.Action.Keeps.{Keeps}
use substreams_data_service.Horizon.Types.{Address}
use substreams_data_service.Sidecar.Session.{Session, new_session}
use substreams_data_service.Sidecar.Manager.{SessionManager, create, on_session, on_created}

-- Each session is still there, and related to what it was.
abbrev pub Evolves : (Session → Session → Type 0) → SessionManager → SessionManager → Type 0
Evolves R sm sm' =
    (id : String) (s : Session)
    → lookup id sm.sessions ≡ some s
    → (s' : Session) × (lookup id sm'.sessions ≡ some s') × R s s'

-- A handler on a session runs its body on it and writes the result back.
pub on_session-found :
    {E A : Type 0} {s : Session} (id : String) (missing : Go E A) (body : Action Session E A)
    (sm : SessionManager)
    → lookup id sm.sessions ≡ some s
    → on_session id missing body sm
      ≡ ((body s).0, record { sessions = insert id (body s).1 sm.sessions })
unfolding on_session
on_session-found id missing body sm h = rw (h, on_session)

pub on_session-missing :
    {E A : Type 0} (id : String) (missing : Go E A) (body : Action Session E A)
    (sm : SessionManager)
    → lookup id sm.sessions ≡ none
    → on_session id missing body sm ≡ (missing, sm)
unfolding on_session
on_session-missing id missing body sm h = rw (h, on_session)

module _ (R : Session → Session → Type 0) (rel_refl : (s : Session) → R s s) where
  pub on_session-Evolves :
      {E A : Type 0} (id : String) (missing : Go E A) (body : Action Session E A)
      (sm : SessionManager)
      → Keeps R body
      → Evolves R sm (on_session id missing body sm).1
  on_session-Evolves id missing body sm keeps j s there =
      elim (Option-cases (lookup id sm.sessions)) [
        | inl e ↦ rw (on_session-missing id missing body sm e) (s, there, rel_refl s)
        | inr (t, e) ↦
            rw (on_session-found id missing body sm e, lookup-insert id j)
              (elim (Bool-cases (id == j)) [
                | inl same ↦
                    let e' : t ≡ s =
                      cc (sym e ∙ ap (λ k. lookup k sm.sessions) ((eq_iff id j).0 same) ∙ there) in
                    rw same ((body t).1, refl, subst (λ x. R x (body t).1) e' (keeps.run t))
                | inr other ↦ rw other (s, there, rel_refl s)
              ])
      ]

  -- A new identifier leaves the other sessions alone.
  pub on_created-Evolves :
      {E A : Type 0} (id : String) (now : ℕ) (payer receiver data_service : Address)
      (sm : SessionManager) (body : Action Session E A)
      → lookup id sm.sessions ≡ none
      → Evolves R sm (on_created (create id now payer receiver data_service sm) body).1
  unfolding on_created create new_session
  on_created-Evolves id now payer receiver data_service sm body fresh j s there =
      rw (lookup-insert id j) (elim (Bool-cases (id == j)) [
        | inl same ↦
            let e : none ≡ some s =
              sym fresh ∙ ap (λ k. lookup k sm.sessions) ((eq_iff id j).0 same) ∙ there in
            cc e
        | inr other ↦
            let kept =
              lookup-insert id j (new_session id now payer receiver data_service) sm.sessions in
            rw other (s, kept ∙ rw other there, rel_refl s)
      ])
