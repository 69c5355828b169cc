-- ===== src/Client.antt =====
-- uist-game/NetworkClient.h, NetworkClient.cpp, GameNetworkClient.h and GameNetworkClient.cpp: the
-- client's connection. A pointer to the network service or the socket is a Boolean that says
-- whether it is set; the address of the server is empty or not. A handler returns the client and
-- what it asks for, as for a session of the server.
pub mod Stall
pub mod Closing
pub mod Running
pub mod Reading
pub mod Delivery
use footscreen.Base.{
  ℕ, ◌+◌, Bool, true, false, not, ◌&&◌, Option, none, some, List, [], ◌∷◌, ◌++◌, ◌==◌,
  if◌then◌else◌, ◌>>=◌,
}
use footscreen.MessageData.{
  MessageData, HeaderLayout, copy_header_from, copy_content_from, message_id_none, id_server,
}
use footscreen.Handlers.{message_undefined, MessageHandler, clear_message_handlers}
use footscreen.Actions.{
  Level, error, info, warning, Action, logs, async_read, async_connect, message_received,
  connection_established, connection_closed, connection_failed, post_unload, post_deliver,
  read_header, read_body,
}
use footscreen.Framework.{Result, fault, waits, done}
use footscreen.Session.{write_front}

pub record NetworkClient : Type 0 where
  pub io_service : Bool
  pub socket : Bool
  pub is_connected : Bool
  pub server_address : Bool
  pub read_buffer : List ℕ
  pub current_message : MessageData
  pub write_message_queue : List MessageData

-- The constructor; the buffers are as memory had them.
unfoldable pub new_network_client : List ℕ → MessageData → NetworkClient
new_network_client bytes message = record {
  io_service = false;
  socket = false;
  is_connected = false;
  server_address = false;
  read_buffer = bytes;
  current_message = message;
  write_message_queue = [];
}

unfoldable pub connect_to_server : NetworkClient → NetworkClient
connect_to_server c = record c { server_address = true }

unfoldable pub accepts_connection : NetworkClient → Bool
accepts_connection c = c.io_service

-- `load`, where the address resolves.
unfoldable pub load : NetworkClient → NetworkClient
load c = record c { io_service = true; socket = true }

unfoldable pub start_accept : NetworkClient → Option (NetworkClient × List Action)
start_accept c = if c.socket then some (c, async_connect ∷ []) else none

unfoldable pub stop : Bool → NetworkClient → NetworkClient × List Action
stop failed c = (c, (if c.io_service then post_unload failed else connection_closed) ∷ [])

-- The signals of a failed connection: those of the nested `stop()`, and `onConnectionFailed`.
abbrev pub failure : Bool → NetworkClient → List Action
failure true c = (stop false c).1 ++ connection_failed ∷ []
failure false c = []

-- `refused` says that shutting the socket down fails, which is logged in two lines.
unfoldable pub unload : Bool → Bool → NetworkClient → NetworkClient × List Action
unfolding stop
unload refused failed c =
    let closed = record c { io_service = false; socket = false } in
    (
      record closed { is_connected = false },
      logs info
          ∷ ((if c.socket && refused then logs warning ∷ logs warning ∷ [] else [])
              ++ (failure failed closed ++ connection_closed ∷ [])),
    )

unfoldable pub disconnect_from_server : NetworkClient → NetworkClient × List Action
unfolding stop
disconnect_from_server = stop false

unfoldable pub reconnect_to_server : NetworkClient → Option (NetworkClient × List Action)
unfolding start_accept
reconnect_to_server = start_accept

module _ (l : HeaderLayout) where
  unfoldable pub handle_connect : Bool → NetworkClient → NetworkClient × List Action
  unfolding stop
  handle_connect true c = (c, logs info ∷ ((stop false c).1 ++ connection_failed ∷ []))
  handle_connect false c = (
    record c { is_connected = true },
    async_read l.header_length read_header ∷ connection_established ∷ [],
  )

  unfoldable pub handle_read_header : Bool → NetworkClient → Option (NetworkClient × List Action)
  handle_read_header true c = some (c, logs warning ∷ connection_closed ∷ [])
  handle_read_header false c = copy_header_from l c.read_buffer c.current_message >>= λ m.
      some (record c { current_message = m }, async_read m.header.content_length read_body ∷ [])

  unfoldable pub handle_read_body : Bool → NetworkClient → Option (NetworkClient × List Action)
  handle_read_body true c = some (c, logs warning ∷ connection_closed ∷ [])
  handle_read_body false c = copy_content_from c.read_buffer c.current_message >>= λ m. some (
    record c { current_message = m },
    message_received m ∷ async_read l.header_length read_header ∷ [],
  )

  unfoldable pub deliver : MessageData → NetworkClient → NetworkClient × List Action
  deliver m c = elim c.write_message_queue [
    | [] ↦ (
      record c { write_message_queue = m ∷ [] },
      if not c.is_connected then [] else write_front l m ∷ [],
    )
    | front ∷ rest ↦ (record c { write_message_queue = front ∷ (rest ++ m ∷ []) }, [])
  ]

  unfoldable pub pop_front : List MessageData → NetworkClient → Option (NetworkClient × List Action)
  pop_front [] c = none
  pop_front (front ∷ []) c = some (record c { write_message_queue = [] }, [])
  pop_front (front ∷ next ∷ rest) c =
      some (record c { write_message_queue = next ∷ rest }, write_front l next ∷ [])

  unfoldable pub handle_write : Bool → NetworkClient → Option (NetworkClient × List Action)
  unfolding pop_front
  handle_write true c = some (c, logs warning ∷ connection_closed ∷ [])
  handle_write false c = pop_front c.write_message_queue c

-- `send` on the client as its loop finds it, turn by turn, while other threads change it: it waits until
-- the client is connected, and then posts the delivery to the network service. `waits` is that none of
-- the turns finds the client connected.
unfoldable pub send : MessageData → List NetworkClient → Result (List Action)
send m [] = waits
send m (c ∷ turns) =
    if not c.is_connected
    then send m turns
    else if c.io_service
    then done (post_deliver m ∷ [])
    else fault

-- `GameNetworkClient::send`: what reaches the network client, and the lines logged.
unfoldable pub send_as_game : MessageData → ℕ → List MessageData × List Level
send_as_game m receiver =
    if m.header.content_type == message_undefined
    then ([], error ∷ [])
    else if m.header.message_id == message_id_none
    then ([], error ∷ [])
    else if receiver == id_server
    then (m ∷ [], [])
    else ([], [])

-- `GameNetworkClient::stop`.
unfoldable pub stop_as_game :
    {C : Type 0}
    → List (MessageHandler C)
    → NetworkClient
    → List (MessageHandler C) × NetworkClient × List Action
unfolding stop clear_message_handlers
stop_as_game hs c = let (c', actions) = stop false c in (clear_message_handlers hs, c', actions)
