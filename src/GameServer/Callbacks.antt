-- ===== src/GameServer/Callbacks.antt =====
-- The handlers that uist-game/GameServer.cpp registers, and what the callbacks of its network do.
use footscreen.Base.{ℕ, Option, none, some, List, [], ◌++◌, ◌>>=◌}
use footscreen.Floats.{Floats}
use footscreen.MessageData.{MessageData, message_id_event}
use footscreen.Actions.{Level}
use footscreen.Handlers.{
  MessageHandler, message_move_request, message_highlight_request, add_message_handler,
}
use footscreen.Message.{Region}
use footscreen.Requests.{MoveData, HighlightData, PlayerData}
use footscreen.Game.{Game}
use footscreen.Game.Level.{Memory}
use footscreen.Game.Updates.{
  update_object, handle_game_unit, handle_game_obstacle, handle_new_player_id,
}
use footscreen.Server.{GameNetworkServer, run}
use footscreen.GameServer.{GameServer, handle_move_request, handle_highlight_request}

-- `updates id` is bound to `updateData` of the object with an ID; `creates_units`,
-- `creates_obstacles` and `takes_player_id` to the handlers of the game.
pub data Callback : Type 0 where
  moves highlights : Callback
  creates_units creates_obstacles takes_player_id : Callback
  updates : ℕ → Callback

abbrev pub initialize_message_handlers :
    List (MessageHandler Callback) → List (MessageHandler Callback)
initialize_message_handlers hs =
    add_message_handler message_highlight_request message_id_event highlights
      (add_message_handler message_move_request message_id_event moves hs)

-- `GameServer::run`, without the thread of its loop.
unfoldable pub run_game_server : {F D : Type 0} → GameServer F D Callback → GameServer F D Callback
unfolding run
run_game_server s =
    let net : GameNetworkServer Callback =
      run (record { message_handlers = []; next_player_id = 0; player_profiles = [] }) in
    record s {
      game_network_server =
          some (record net { message_handlers = initialize_message_handlers net.message_handlers });
    }

-- Where requests stand in memory, and what stood there before.
pub record RequestMemory (F : Type 0) : Type 0 where
  pub move_region : Region (MoveData F)
  pub move_garbage : MoveData F
  pub highlight_region : Region HighlightData
  pub highlight_garbage : HighlightData
  pub player_region : Region PlayerData
  pub objects : Memory F Callback

-- A handler of the game, with the handlers of the network.
abbrev pub with_game :
    {F D C : Type 0}
    → (Game F D → List (MessageHandler C) → Option (Game F D × List (MessageHandler C)))
    → GameServer F D C
    → Option (GameServer F D C × List Level)
with_game handler s = elim s.game [
  | none ↦ some (s, [])
  | some g ↦ s.game_network_server >>= λ net. handler g net.message_handlers >>= λ (h, hs). some (
    record s { game_network_server = some (record net { message_handlers = hs }); game = some h },
    [],
  )
]

module _ {F D : Type 0} (f : Floats F D) (memory : RequestMemory F) where
  -- One callback on the server.
  unfoldable pub answer :
      Callback
      → MessageData
      → GameServer F D Callback
      → Option (GameServer F D Callback × List Level)
  unfolding handle_move_request handle_highlight_request update_object handle_game_unit
      handle_game_obstacle handle_new_player_id
  answer moves m s = handle_move_request f moves memory.move_region memory.move_garbage m s
  answer highlights m s =
      handle_highlight_request highlights memory.highlight_region memory.highlight_garbage m s
  answer creates_units m s = with_game (handle_game_unit f memory.objects m) s
  answer creates_obstacles m s = with_game (handle_game_obstacle f memory.objects m) s
  answer takes_player_id m s =
      with_game
        (λ g hs.
          handle_new_player_id takes_player_id memory.player_region m g >>= λ h. some (h, hs))
        s
  answer (updates id) m s = elim s.game [
    | none ↦ some (s, [])
    | some g ↦ update_object id m g >>= λ h. some (record s { game = some h }, [])
  ]

  -- The callbacks of one package, with what they log.
  unfoldable pub run_callback :
      Callback
      → MessageData
      → ℕ
      → Option (GameServer F D Callback × List Level)
      → Option (GameServer F D Callback × List Level)
  unfolding answer
  run_callback c m sender state =
      state >>= λ (s, logged). answer c m s >>= λ (s', more). some (s', logged ++ more)
