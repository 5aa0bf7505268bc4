-- ===== src/Sidecar/Manager.antt =====
-- sidecar/session.go: the session manager, a map from identifiers to sessions. A handler works on
-- the session that the map points to, so a change of it is a write at its identifier.
pub mod Frame
use substreams_data_service.Common.{
  ℕ, List, [], ◌∷◌, Option, none, some, String, length, if◌then◌else◌,
}
use substreams_data_service.Common.Dict.{Dict, lookup, insert, erase}
use substreams_data_service.Common.Go.{Go}
use substreams_data_service.Common.Action.{Action}
use substreams_data_service.Horizon.Types.{Address}
use substreams_data_service.Sidecar.Session.{Session, new_session, is_active}

pub record SessionManager : Type 0 where
  pub sessions : Dict Session

unfoldable pub new_session_manager : SessionManager
new_session_manager = record { sessions = [] }

unfoldable pub create :
    String → ℕ → Address → Address → Address → SessionManager → Session × SessionManager
create id now payer receiver data_service sm =
    let session = new_session id now payer receiver data_service in
    (session, record { sessions = insert session.id session sm.sessions })

-- `none` is the error "session not found".
unfoldable pub get : String → SessionManager → Option Session
get id sm = lookup id sm.sessions

unfoldable pub delete : String → SessionManager → SessionManager
delete id sm = record { sessions = erase id sm.sessions }

unfoldable pub active_of : Dict Session → List Session
active_of [] = []
active_of ((id, s) ∷ rest) =
    let others = active_of rest in if is_active s then s ∷ others else others

-- In the order of the list; a Go map has none.
unfoldable pub get_active : SessionManager → List Session
unfolding active_of
get_active sm = active_of sm.sessions

unfoldable pub count : SessionManager → ℕ
count sm = length sm.sessions

-- A handler that works on the session at `id`, or ends at once if there is none.
unfoldable pub on_session :
    {E A : Type 0} → String → Go E A → Action Session E A → SessionManager → Go E A × SessionManager
on_session id missing body sm = elim (lookup id sm.sessions) [
  | none ↦ (missing, sm)
  | some s ↦ let (r, s') = body s in (r, record { sessions = insert id s' sm.sessions })
]

-- A handler that works on a session that it has just created.
unfoldable pub on_created :
    {E A : Type 0} → Session × SessionManager → Action Session E A → Go E A × SessionManager
on_created (session, sm) body =
    let (r, s') = body session in (r, record { sessions = insert session.id s' sm.sessions })
