-- ===== src/GameServer/RoundTrip.antt =====
-- From a call on the client to its effect on the server: `moveUnit` and `highlightUnit` of
-- uist-game/Game.cpp, `handleMessageReceived` of uist-game/GameNetworkServer.cpp and the handlers of
-- uist-game/GameServer.cpp.
use footscreen.Base.{
  ℕ, ◌%◌, ◌++◌, any, ◌≡◌, ◌<◌, Bool, true, false, Option, some, List, [], length, arith,
}
use footscreen.Floats.{Floats}
use footscreen.MessageData.{MessageHeader, MessageData, max_message_length, message_id_event}
use footscreen.Actions.{Level}
use footscreen.Handlers.{MessageHandler, message_move_request, message_highlight_request, handles}
use footscreen.Units.{set_highlighted}
use footscreen.Game.Moving.{move_unit, highlight_unit}
use footscreen.Server.{
  GameNetworkServer, PlayerProfile, handle_message_received, player_profile_by_session,
}
use footscreen.Requests.{MoveData, HighlightData, new_move_request, new_highlight_request}
use footscreen.Requests.Sending.{IsCarried, synchronize-new_request}
use footscreen.GameServer.{GameServer, change_unit, accelerate}
use footscreen.GameServer.Callbacks.{
  Callback, initialize_message_handlers, RequestMemory, run_callback,
}
use footscreen.GameServer.Receiving.{move-received, highlight-received}

module _ {F D C N : Type 0} (f : Floats F D) (memory : RequestMemory F)
    (s : GameServer F D Callback) (net : GameNetworkServer Callback) (p : PlayerProfile)
    (session : ℕ) (running : s.game_network_server ≡ some net)
    (extra : List (MessageHandler Callback))
    (handlers : net.message_handlers ≡ initialize_message_handlers [] ++ extra)
    (known : player_profile_by_session (some session) net.player_profiles ≡ some p)
    (send : MessageData → N → Option N) (report : Level → N → N) (garbage : MessageHeader)
    (bytes : List ℕ) (size : length bytes ≡ max_message_length) (self : C)
    (hs : List (MessageHandler C)) (index : ℕ) (small : index < 256) (n : N) where
  -- `moveUnit` on a client, for a unit index below 256 and a request whose bytes fit a package and
  -- tell its value, hands the network one package; and when this package arrives on the session of a
  -- player, the running server's handlers set the acceleration of the unit with this index among the
  -- player's own, by the angle and the strength of the call, with nothing logged before and the
  -- session open.
  pub move_unit-handle_message_received :
      any (λ h. handles h message_move_request message_id_event) extra ≡ false
      → IsCarried message_move_request memory.move_region
      → (old : MoveData F) (angle strength : F)
      → let d : MoveData F = record { unit_index = index; angle = angle; strength = strength } in
        (m : MessageData) × (move_unit send report garbage bytes self true f memory.move_region old
            hs index angle strength n
          ≡ send m n)
        × (handle_message_received (run_callback f memory) session m net (some (s, [])) ≡ record {
          state = some (change_unit (accelerate f d) index (some p) s);
          logged = [];
          session_closed = false;
        })
  unfolding move_unit new_move_request
  move_unit-handle_message_received quiet carried old angle strength =
      let d : MoveData F = record { unit_index = index; angle = angle; strength = strength } in
      let same : index % 256 ≡ index = omega arith in
      let (m, sent, header, body, formed) =
        synchronize-new_request send report garbage bytes size self message_move_request
          memory.move_region carried (record old { angle = f.lit 0; strength = f.lit 0 }) d hs n in
      (
        m,
        rw same sent,
        move-received f memory s net p session running extra handlers known m quiet d carried header
            body formed,
      )

  -- `highlightUnit` on a client, for a unit index below 256 and a request whose bytes fit a package
  -- and tell its value, hands the network one package; and when this package arrives on the session
  -- of a player, a running server, whose handlers are those of `GameServer::run` and others that are
  -- not for the request, sets the highlight of the unit with this index among the player's own, as the
  -- call says, with nothing logged before and the session open.
  pub highlight_unit-handle_message_received :
      any (λ h. handles h message_highlight_request message_id_event) extra ≡ false
      → IsCarried message_highlight_request memory.highlight_region
      → (old : HighlightData) (is_highlighted : Bool)
      → (m : MessageData) × (highlight_unit send report garbage bytes self true
            memory.highlight_region old hs index is_highlighted n
          ≡ send m n)
        × (handle_message_received (run_callback f memory) session m net (some (s, [])) ≡ record {
          state = some (change_unit (set_highlighted is_highlighted) index (some p) s);
          logged = [];
          session_closed = false;
        })
  unfolding highlight_unit new_highlight_request
  highlight_unit-handle_message_received quiet carried old is_highlighted =
      let d : HighlightData = record { unit_index = index; is_highlighted = is_highlighted } in
      let same : index % 256 ≡ index = omega arith in
      let (m, sent, header, body, formed) =
        synchronize-new_request send report garbage bytes size self message_highlight_request
          memory.highlight_region carried (record old { is_highlighted = true }) d hs n in
      (
        m,
        rw same sent,
        highlight-received f memory s net p session running extra handlers known m quiet d carried
            header body formed,
      )
