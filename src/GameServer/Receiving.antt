-- ===== src/GameServer/Receiving.antt =====
-- What a running server does with the package of a request: `handleMessageReceived` of
-- uist-game/GameNetworkServer.cpp and the handlers of uist-game/GameServer.cpp.
use footscreen.Base.{
  ℕ, ◌++◌, keep, any, any-keep, keep-append_none, ◌≢◌, ◌≡◌, refl, ◌∙◌, true, false, some, List, [],
  ◌∷◌, arith,
}
use footscreen.Floats.{Floats}
use footscreen.MessageData.{
  MessageData, payload, IsWellFormed, set_network_server_session, message_id_event, id_none,
}
use footscreen.Actions.{Level}
use footscreen.Handlers.{
  MessageHandler, message_move_request, message_highlight_request, add_message_handler, handles,
}
use footscreen.Units.{set_highlighted}
use footscreen.Server.{
  GameNetworkServer, PlayerProfile, handle_message_received, player_profile_by_session,
}
use footscreen.Handlers.Dispatch.{is_for}
use footscreen.Server.Incoming.{handle_message_received-call_all}
use footscreen.Requests.{MoveData, HighlightData, new_move_request, new_highlight_request}
use footscreen.Requests.Sending.{IsCarried, read_request-sent}
use footscreen.GameServer.{
  GameServer, change_unit, accelerate, handle_move_request, handle_highlight_request,
}
use footscreen.GameServer.Callbacks.{
  Callback, moves, highlights, initialize_message_handlers, RequestMemory, answer, run_callback,
}

abbrev move_handler : MessageHandler Callback
move_handler = record {
  message_type = message_move_request;
  message_id = message_id_event;
  message_handler_callback = some moves;
}

abbrev highlight_handler : MessageHandler Callback
highlight_handler = record {
  message_type = message_highlight_request;
  message_id = message_id_event;
  message_handler_callback = some highlights;
}

module _ (m : MessageData) (id : m.header.message_id ≡ message_id_event) where
  kept_move :
      m.header.content_type ≡ message_move_request
      → keep (is_for m) (initialize_message_handlers []) ≡ move_handler ∷ []
  unfolding handles add_message_handler
  kept_move type = ground (arith)

  kept_highlight :
      m.header.content_type ≡ message_highlight_request
      → keep (is_for m) (initialize_message_handlers []) ≡ highlight_handler ∷ []
  unfolding handles add_message_handler
  kept_highlight type = ground (arith)

-- The handlers that are for no request are not for the package of one.
quiet_for :
    (type : ℕ) (extra : List (MessageHandler Callback)) (m : MessageData)
    → any (λ h. handles h type message_id_event) extra ≡ false
    → m.header.content_type ≡ type
    → m.header.message_id ≡ message_id_event
    → any (is_for m) extra ≡ false
quiet_for type extra m quiet same event = rw (same, event) quiet

module _ {F D : Type 0} (f : Floats F D) (memory : RequestMemory F) (s : GameServer F D Callback)
    (net : GameNetworkServer Callback) (p : PlayerProfile) (session : ℕ)
    (running : s.game_network_server ≡ some net) (extra : List (MessageHandler Callback))
    (handlers : net.message_handlers ≡ initialize_message_handlers [] ++ extra)
    (known : player_profile_by_session (some session) net.player_profiles ≡ some p)
    (m : MessageData) where
  received :
      (h : MessageHandler Callback) (c : Callback) (a : GameServer F D Callback × List Level)
      → h.message_handler_callback ≡ some c
      → m.header.content_type ≢ id_none
      → keep (is_for (set_network_server_session (some session) m)) (initialize_message_handlers [])
        ≡ h ∷ []
      → any (is_for (set_network_server_session (some session) m)) extra ≡ false
      → answer f memory c (set_network_server_session (some session) m) s ≡ some a
      → handle_message_received (run_callback f memory) session m net (some (s, []))
        ≡ record { state = some a; logged = []; session_closed = false }
  unfolding run_callback
  received h c a calls typed kept quiet answered =
      let one = keep-append_none _ h (initialize_message_handlers []) extra kept quiet in
      handle_message_received-call_all (run_callback f memory) session m net (some (s, [])) typed
      ∙ rw
          (
            handlers,
            one,
            any-keep _ h (initialize_message_handlers [] ++ extra) [] one,
            known,
            calls,
            answered,
          )
          refl

  -- What a package of one type and an event comes to.
  pub move-received :
      any (λ h. handles h message_move_request message_id_event) extra ≡ false
      → (d : MoveData F) → IsCarried message_move_request memory.move_region
      → m.header ≡ record {
        message_id = message_id_event;
        content_type = message_move_request;
        content_length = memory.move_region.size;
      }
      → payload m ≡ memory.move_region.read d
      → IsWellFormed m
      → handle_message_received (run_callback f memory) session m net (some (s, [])) ≡ record {
        state = some (change_unit (accelerate f d) d.unit_index (some p) s);
        logged = [];
        session_closed = false;
      }
  unfolding new_move_request answer handle_move_request set_network_server_session
  move-received quiet d carried header body formed =
      let initial = record memory.move_garbage { angle = f.lit 0; strength = f.lit 0 } in
      let read =
        read_request-sent moves message_move_request memory.move_region carried initial d m
          (some session) header body formed in
      let answered : answer f memory moves (set_network_server_session (some session) m) s
          ≡ some (change_unit (accelerate f d) d.unit_index (some p) s) =
        rw (read, running, known) refl in
      received move_handler moves (change_unit (accelerate f d) d.unit_index (some p) s) refl
        (cc header)
        (kept_move (set_network_server_session (some session) m) (cc header) (cc header))
        (quiet_for _ extra (set_network_server_session (some session) m) quiet (cc header)
          (cc header))
        answered

  pub highlight-received :
      any (λ h. handles h message_highlight_request message_id_event) extra ≡ false
      → (d : HighlightData) → IsCarried message_highlight_request memory.highlight_region
      → m.header ≡ record {
        message_id = message_id_event;
        content_type = message_highlight_request;
        content_length = memory.highlight_region.size;
      }
      → payload m ≡ memory.highlight_region.read d
      → IsWellFormed m
      → handle_message_received (run_callback f memory) session m net (some (s, [])) ≡ record {
        state = some (change_unit (set_highlighted d.is_highlighted) d.unit_index (some p) s);
        logged = [];
        session_closed = false;
      }
  unfolding new_highlight_request answer handle_highlight_request set_network_server_session
  highlight-received quiet d carried header body formed =
      let initial = record memory.highlight_garbage { is_highlighted = true } in
      let read =
        read_request-sent highlights message_highlight_request memory.highlight_region carried
          initial d m (some session) header body formed in
      let changed = change_unit (set_highlighted d.is_highlighted) d.unit_index (some p) s in
      let answered : answer f memory highlights (set_network_server_session (some session) m) s
          ≡ some changed =
        rw (read, running, known) refl in
      received highlight_handler highlights changed refl (cc header)
        (kept_highlight (set_network_server_session (some session) m) (cc header) (cc header))
        (quiet_for _ extra (set_network_server_session (some session) m) quiet (cc header)
          (cc header))
        answered
