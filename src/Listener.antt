-- ===== src/Listener.antt =====
-- uist-game/NetworkServer.h and NetworkServer.cpp: which connections are accepted, and who frees the
-- sessions. A session is the address of the object; what is asked of boost::asio, of a session and of
-- memory is a list of actions. The thread of `run` is one sequence of handlers.
pub mod Accepting
pub mod Freeing
use footscreen.Base.{
  ℕ, ◌+◌, Bool, true, false, Option, none, some, List, [], ◌∷◌, ◌++◌, map, if◌then◌else◌,
}

-- `stop_service` is `m_ioService->stop()`; `session_accepted` is the signal.
pub data Call : Type 0 where
  async_accept start_session session_accepted free_session : ℕ → Call
  post_release stop_service : Call

-- `is_loaded` says that the service, the endpoint and the acceptor exist; `waiting` is the session of
-- the accept that is under way.
pub record NetworkServer : Type 0 where
  pub is_running : Bool
  pub is_loaded : Bool
  pub sessions : List ℕ
  pub waiting : Option ℕ

unfoldable pub new_network_server : NetworkServer
new_network_server = record { is_running = false; is_loaded = false; sessions = []; waiting = none }

unfoldable pub load_server : NetworkServer → NetworkServer
load_server s = record s { is_loaded = true }

-- `fresh` is where the new session stands.
unfoldable pub accept_next : ℕ → NetworkServer → NetworkServer × List Call
accept_next fresh s = (record s { waiting = some fresh }, async_accept fresh ∷ [])

unfoldable pub run_server : ℕ → NetworkServer → NetworkServer × List Call
unfolding load_server accept_next
run_server fresh s = accept_next fresh (load_server s)

unfoldable pub handle_accept : Bool → ℕ → ℕ → NetworkServer → NetworkServer × List Call
unfolding accept_next
handle_accept error session fresh s =
    if error
    then (let (t, calls) = accept_next fresh s in (t, free_session session ∷ calls))
    else (let (t, calls) = accept_next fresh (record s { sessions = s.sessions ++ session ∷ [] }) in
        (t, start_session session ∷ session_accepted session ∷ calls))

unfoldable pub stop_network_server : NetworkServer → NetworkServer × List Call
stop_network_server s = (s, post_release ∷ [])

unfoldable pub release : NetworkServer → NetworkServer × List Call
release s =
    (record s { is_running = false; is_loaded = false }, stop_service ∷ map free_session s.sessions)

-- Some accepts, one after the other, each with whether it fails. The sessions stand one after the
-- other in memory, from the one that is waiting.
unfoldable pub handle_accepts : List Bool → ℕ → NetworkServer → NetworkServer × List Call
unfolding handle_accept
handle_accepts [] session s = (s, [])
handle_accepts (e ∷ es) session s =
    let (t, calls) = handle_accept e session (session + 1) s in
    let (u, more) = handle_accepts es (session + 1) t in (u, calls ++ more)
