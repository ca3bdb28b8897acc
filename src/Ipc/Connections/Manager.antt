-- ===== src/Ipc/Connections/Manager.antt =====
-- The two maps and the operations on them. Each operation holds the mutex, so it is one step.
use test_ai_agent.Prelude.{ℕ, List, [], map, Option, none, some, length, nat_eq}
use test_ai_agent.Prelude.Int.{ℤ, int_eq}
use test_ai_agent.Prelude.Maps.{Map, lookup, insert, erase}
use test_ai_agent.Ipc.Session.Defs.{Session, close}

pub record Connections : Type 0 where
  pub sessions_by_id : Map ℕ Session
  pub fd_to_id : Map ℤ ℕ

abbrev pub no_connections : Connections
no_connections = record { sessions_by_id = []; fd_to_id = [] }

-- A null pointer is ignored.
unfoldable pub add_session : Option Session → Connections → Connections
add_session none c = c
add_session (some s) c = record {
  sessions_by_id = insert s.session_id s c.sessions_by_id;
  fd_to_id = insert s.client_fd s.session_id c.fd_to_id;
}

unfoldable pub remove_session : ℕ → Connections → Connections
remove_session id c = elim (lookup id c.sessions_by_id) [
  | none ↦ c
  | some s ↦ record {
    sessions_by_id = erase id c.sessions_by_id;
    fd_to_id = erase s.client_fd c.fd_to_id;
  }
]

unfoldable pub remove_session_by_fd : ℤ → Connections → Connections
remove_session_by_fd fd c = elim (lookup fd c.fd_to_id) [
  | none ↦ c
  | some id ↦ record { sessions_by_id = erase id c.sessions_by_id; fd_to_id = erase fd c.fd_to_id }
]

unfoldable pub get_session : ℕ → Connections → Option Session
get_session id c = lookup id c.sessions_by_id

unfoldable pub get_session_by_fd : ℤ → Connections → Option Session
get_session_by_fd fd c = elim (lookup fd c.fd_to_id) [
  | none ↦ none
  | some id ↦ lookup id c.sessions_by_id
]

unfoldable pub session_count : Connections → ℕ
session_count c = length c.sessions_by_id

unfoldable pub get_all_sessions : Connections → List Session
get_all_sessions c = map (λ (e : ℕ × Session). e.1) c.sessions_by_id

-- The manager, and the sessions that it closed and let go.
unfoldable pub close_all : Connections → Connections × List Session
close_all c = (no_connections, map (λ (e : ℕ × Session). close e.1) c.sessions_by_id)
