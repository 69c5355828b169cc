-- ===== src/GameServer/Loading.antt =====
-- `loadGame` of uist-game/GameServer.cpp, with the constructor and the destruction of a game of
-- uist-game/Game.cpp: which handlers the server's network then has.
pub mod Loaded
pub mod Reloading
pub mod Quiet
use footscreen.Base.{ℕ, Option, none, some, List, ◌>>=◌}
use footscreen.Floats.{Floats}
use footscreen.MessageData.{message_id_all}
use footscreen.Handlers.{
  MessageHandler, message_game_unit, message_game_obstacle, message_new_player_id,
  add_message_handler,
}
use footscreen.Game.{Game, new_game}
use footscreen.Game.Level.{Memory, load, destroy_units, destroy_obstacles}
use footscreen.GameServer.{GameServer}
use footscreen.GameServer.Callbacks.{Callback, creates_units, creates_obstacles, takes_player_id}

-- The three callbacks that are bound to a game.
pub record GameCallbacks (C : Type 0) : Type 0 where
  pub handle_game_unit : C
  pub handle_game_obstacle : C
  pub handle_new_player_id : C

-- The callbacks that are bound to the game of the server.
abbrev pub game_callbacks : GameCallbacks Callback
game_callbacks = record {
  handle_game_unit = creates_units;
  handle_game_obstacle = creates_obstacles;
  handle_new_player_id = takes_player_id;
}

module _ {C : Type 0} where
  -- `Game::initializeMessageHandlers`.
  unfoldable pub initialize_game_handlers :
      GameCallbacks C → List (MessageHandler C) → List (MessageHandler C)
  unfolding add_message_handler
  initialize_game_handlers k hs =
      add_message_handler message_new_player_id message_id_all k.handle_new_player_id (
        add_message_handler message_game_obstacle message_id_all k.handle_game_obstacle
          (add_message_handler message_game_unit message_id_all k.handle_game_unit hs))

  -- A game that nobody points to any more: its members go in reverse order, and it has no destructor
  -- of its own.
  unfoldable pub destroy_game :
      {F D : Type 0} → Option (Game F D) → List (MessageHandler C) → List (MessageHandler C)
  unfolding destroy_units destroy_obstacles
  destroy_game none hs = hs
  destroy_game (some g) hs = destroy_units g.game_units (destroy_obstacles g.game_obstacles hs)

module _ {F D C : Type 0} (f : Floats F D) (memory : Memory F C) where
  -- `next` is the static counter of message IDs, which is returned.
  unfoldable pub load_game :
      GameCallbacks C → ℕ → GameServer F D C → ℕ → Option (GameServer F D C × ℕ)
  unfolding initialize_game_handlers destroy_game new_game load
  load_game k level s next = s.game_network_server >>= λ net.
      load f memory level (new_game f) (record {
        message_handlers = destroy_game s.game (initialize_game_handlers k net.message_handlers);
        next_message_id = next;
      })
      >>= λ (g, end). some (
        record {
          game_network_server = some (record net { message_handlers = end.message_handlers });
          game = some g;
        },
        end.next_message_id,
      )
