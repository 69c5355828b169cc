-- ===== src/Tests/Threads.antt =====
-- The client's thread: a connection that is begun, one whose address does not resolve, and one that
-- the server closes.
use footscreen.Base.{List, ◌≡◌, refl, true, false, some, [], ◌∷◌, ◌++◌}
use footscreen.MessageData.{MessageData}
use footscreen.Actions.{
  Action, error, warning, logs, async_read, async_connect, read_header, connection_closed,
}
use footscreen.Client.{
  NetworkClient, connect_to_server, accepts_connection, stop, send, start_accept, load,
}
use footscreen.Client.Running.{
  Thread, run_as_game, act, perform, begin_turn, finish_turn, serve, connects, stops, begins, Reach,
  here, next,
}
use footscreen.Client.Running.Served.{Reach-run_as_game}
use footscreen.Client.Running.Unresolved.{Reach-begin_turn_unresolved}
use footscreen.Framework.{fault}
use footscreen.Client.Running.Lost.{serve-finish_turn-send}
use footscreen.Tests.Data.{layout, buffer, sample}

abbrev idle : Thread
idle = record {
  client = record {
    io_service = false;
    socket = false;
    is_connected = false;
    server_address = false;
    read_buffer = buffer;
    current_message = sample;
    write_message_queue = [];
  };
  serving = false;
  stopped = false;
  pending = [];
  signals = [];
}

abbrev addressed : Thread
addressed = record idle { client = record idle.client { server_address = true } }

abbrev serving : Thread
serving = record addressed {
  client = record addressed.client { io_service = true; socket = true };
  serving = true;
  pending = async_connect ∷ [];
}

serving_reached : Reach layout true (run_as_game buffer sample) serving
unfolding run_as_game connect_to_server begin_turn load start_accept act perform
serving_reached = next (next here (connects refl refl)) (begins true serving refl refl refl)

Reach-run_as_game_example : (serving.client.io_service ≡ true) × (serving.client.socket ≡ true)
Reach-run_as_game_example = Reach-run_as_game layout buffer sample serving_reached refl refl

-- The thread after an address that does not resolve.
abbrev unresolved : Thread
unresolved = record idle {
  client = record idle.client { io_service = true };
  pending = Action.post_unload true ∷ [];
  signals = logs error ∷ [];
}

begin_turn-addressed : begin_turn false addressed ≡ some unresolved
unfolding begin_turn
begin_turn-addressed = refl

-- Another thread asks the client to stop.
abbrev asked : Thread
asked = record unresolved { pending = Action.post_unload true ∷ Action.post_unload false ∷ [] }

asked_reached : Reach layout false unresolved asked
unfolding act stop perform
asked_reached = next here stops

Reach-begin_turn_unresolved_example :
    (asked.signals ≡ addressed.signals ++ logs error ∷ [])
    × (accepts_connection asked.client ≡ true)
    × (asked.serving ≡ false)
Reach-begin_turn_unresolved_example =
    Reach-begin_turn_unresolved layout addressed unresolved refl begin_turn-addressed asked_reached

abbrev reading : Thread
reading = record serving {
  client = record serving.client { is_connected = true };
  pending = async_read 8 read_header ∷ [];
}

serve-finish_turn-send_example :
    (u : Thread) × (serve layout (async_read 8 read_header) buffer true [] reading ≡ some u)
    × (u.signals ≡ (reading.signals ++ logs warning ∷ []) ++ connection_closed ∷ [])
    × Reach layout false reading (finish_turn u)
    × ((finish_turn u).client.is_connected ≡ true)
    × (accepts_connection (finish_turn u).client ≡ false)
    × ((m : MessageData) (turns : List NetworkClient)
        → send m ((finish_turn u).client ∷ turns) ≡ fault)
serve-finish_turn-send_example =
    serve-finish_turn-send layout read_header 8 buffer reading
      (record { serves = refl; runs = refl; connected = refl; reads = refl })
