-- ===== src/Tests/Loading.antt =====
-- A server that loads the first level and then the third.
use footscreen.Base.{ℕ, ◌+◌, ◌≡◌, some, none, List, [], ◌∷◌, ◌++◌, arith}
use footscreen.Handlers.{MessageHandler}
use footscreen.Base.Int.{ℤ}
use footscreen.Game.{Game}
use footscreen.Game.Level.{layout_of}
use footscreen.Game.Level.Registration.{count_up, owned}
use footscreen.GameServer.{GameServer}
use footscreen.GameServer.Loading.{GameCallbacks, load_game}
use footscreen.GameServer.Loading.Loaded.{objects_in, IsLoaded, running}
use footscreen.GameServer.Loading.Reloading.{game_handlers, load_game-load_game}
use footscreen.Tests.Data.{whole_numbers}
use footscreen.Tests.Requests.{memory, network}

abbrev callbacks : ℕ → GameCallbacks ℕ
callbacks n = record {
  handle_game_unit = n;
  handle_game_obstacle = n + 1;
  handle_new_player_id = n + 2;
}

abbrev requests : List (MessageHandler ℕ)
requests =
    record { message_type = 3; message_id = 2; message_handler_callback = some 100 }
    ∷ record { message_type = 4; message_id = 2; message_handler_callback = some 101 }
    ∷ []

load_game-load_game_example :
    let middle = 3 + objects_in 1 in
    (s t : GameServer ℤ ℤ ℕ) × (g : Game ℤ ℤ) × (load_game whole_numbers memory
        (callbacks 200)
        1
        (running whole_numbers memory network requests none)
        3
      ≡ some (s, middle))
    × (load_game whole_numbers memory (callbacks 300) 3 s middle ≡ some (t, middle + objects_in 3))
    × (t
        ≡ running whole_numbers memory network
            (((requests ++ game_handlers (callbacks 200)) ++ game_handlers (callbacks 300))
              ++ owned whole_numbers memory (count_up middle (objects_in 3)))
            (some g))
    × IsLoaded 3 middle g
unfolding layout_of
load_game-load_game_example =
    load_game-load_game whole_numbers memory (callbacks 200) (callbacks 300) 1 3 3 network requests
      (omega arith, (omega arith, tt)) (omega arith) (omega arith)
