-- ===== src/Tests/Servers.antt =====
-- A server with two players.
use footscreen.Base.{
  ℕ, Bool, true, leb, ◌&&◌, ◌+◌, ◌≡◌, ◌≢◌, refl, false, none, some, List, [], ◌∷◌, ◌++◌, length,
  ltb, keep, if◌then◌else◌, arith,
}
use footscreen.MessageData.{
  MessageData, id_first_client, id_new_client, id_none, set_network_server_session,
  set_content_type,
}
use footscreen.Actions.{error, warning}
use footscreen.Handlers.Dispatch.{is_for, call_all}
use footscreen.Server.{
  GameNetworkServer, player_profile_by_session, send, run, nothing_but, handle_session_accepted,
  handle_message_received, Received,
}
use footscreen.Server.Players.{IsServer}
use footscreen.Server.Sending.{send-single}
use footscreen.Server.Incoming.{unheard, handle_message_received-handle_session_accepted}
use footscreen.Listener.{new_network_server, run_server, handle_accepts, release}
use footscreen.Listener.Accepting.{IsJoined, accept_players, accept_players-run}
use footscreen.Listener.Freeing.{frees, one_if, release-handle_accepts-frees}
use footscreen.Tests.Data.{sample}

-- The sessions are numbered 20 and 21; a callback is a number.
abbrev server : GameNetworkServer ℕ
server = record {
  message_handlers =
      record { message_type = 2; message_id = 1; message_handler_callback = some 100 } ∷ [];
  next_player_id = 6;
  player_profiles =
      record { player_id = 4; session = some 20 }
      ∷ record { player_id = 5; session = some 21 }
      ∷ [];
}

server-IsServer : IsServer server
server-IsServer = record { numbered = (refl, (refl, tt)); next_eq = refl; next_lt = omega arith }

typed : sample.header.content_type ≢ 0
typed e = absurd (omega arith)

named : sample.header.message_id ≢ 0
named e = absurd (omega arith)

unknown : player_profile_by_session (some 22) server.player_profiles ≡ none
unfolding player_profile_by_session
unknown = refl

send-single_example :
    send sample (id_first_client + 1) server
    ≡ (if ltb 1 (length server.player_profiles) then some (nothing_but error) else none)
send-single_example = send-single sample server typed named 1 server-IsServer

abbrev note : ℕ → MessageData → ℕ → List (ℕ × ℕ) → List (ℕ × ℕ)
note c m sender notes = notes ++ (c, sender) ∷ []

handle_message_received-handle_session_accepted_example :
    let incoming = set_network_server_session (some 22) sample in
    let called = keep (is_for incoming) server.message_handlers in
    let accepted = handle_session_accepted 22 server in
    let closed : Received (List (ℕ × ℕ)) = record {
      state = [];
      logged = warning ∷ [];
      session_closed = true;
    } in
    (handle_message_received note 22 sample server [] ≡ record {
      state = call_all note incoming id_new_client called [];
      logged = warning ∷ unheard note 22 sample server [];
      session_closed = false;
    })
    × (handle_message_received note 22 sample accepted [] ≡ record {
      state = call_all note incoming 6 called [];
      logged = unheard note 22 sample server [];
      session_closed = false;
    })
    × (handle_message_received note 22 (set_content_type id_none sample) server [] ≡ closed)
    × (handle_message_received note 22 (set_content_type id_none sample) accepted [] ≡ closed)
handle_message_received-handle_session_accepted_example =
    handle_message_received-handle_session_accepted note 22 sample server [] unknown typed

-- One accept fails between two that succeed.
abbrev errors : List Bool
errors = false ∷ true ∷ false ∷ []

release-handle_accepts-frees_example :
    let (s, started) = run_server 10 new_network_server in
    let (t, accepted) = handle_accepts errors 10 s in
    let (u, released) = release t in
    ((k : ℕ)
      → frees k (started ++ (accepted ++ released))
        ≡ one_if (leb 10 k && ltb k (10 + length errors)))
    × (t.waiting ≡ some (10 + length errors))
release-handle_accepts-frees_example = release-handle_accepts-frees errors 10

-- A server that has a handler, and no player yet.
abbrev empty_server : GameNetworkServer ℕ
empty_server = record server { player_profiles = [] }

accept_players-run_example :
    let (s, started) = run_server 10 new_network_server in
    let (t, accepted) = handle_accepts errors 10 s in
    IsJoined t (accept_players (started ++ accepted) (run empty_server))
accept_players-run_example = accept_players-run errors 10 empty_server refl (omega arith)
