-- ===== src/Tests/Requests.antt =====
-- Requests of a player, units that arrive at a client, and a level that is loaded.
use footscreen.Base.{
  ℕ, ◌≡◌, ◌≢◌, refl, true, false, none, some, List, [], ◌∷◌, ◌++◌, length, set, replicate,
  length-replicate, arith, ◌<◌,
}
use footscreen.Base.Int.{ℤ, pos}
use footscreen.MessageData.{MessageData, IsWellFormed, payload}
use footscreen.Handlers.{MessageHandler}
use footscreen.Message.{Region, IsRegion}
use footscreen.Units.{GameUnit, GameUnitData, GameObstacleData, set_highlighted}
use footscreen.Game.{Game, unit_by_index, find_index, unit_by_id}
use footscreen.Game.Lookup.{units_of}
use footscreen.Game.Level.{Memory, Registry}
use footscreen.Game.Updates.{handle_game_unit, handle_game_unit-unit_by_id}
use footscreen.Server.{GameNetworkServer, PlayerProfile}
use footscreen.Requests.{MoveData, HighlightData}
use footscreen.GameServer.{GameServer, change_unit}
use footscreen.GameServer.Requests.{change_unit-units_of}
use footscreen.Tests.Data.{byte, whole_numbers}
use footscreen.Tests.Play.{piece, game}

-- A member of one byte.
abbrev single : {D : Type 0} → (D → ℕ) → (ℕ → D → D) → Region D
single get put = record {
  size = 1;
  read = λ d. get d ∷ [];
  write = λ bytes d. put (byte 0 bytes) d;
}

pub one_byte : (bytes : List ℕ) → length bytes ≡ 1 → byte 0 bytes ∷ [] ≡ bytes
one_byte [] h = absurd (omega arith)
one_byte (a ∷ []) h = refl
one_byte (a ∷ b ∷ rest) h = absurd (omega arith)

abbrev move_region : Region (MoveData ℤ)
move_region = single (λ d. d.unit_index) (λ b d. record d { unit_index = b })

move_region-IsRegion : IsRegion move_region
move_region-IsRegion = record {
  length-read = λ d. refl;
  read-write = λ bytes d h. one_byte bytes h;
}

abbrev highlight_region : Region HighlightData
highlight_region = single (λ d. d.unit_index) (λ b d. record d { unit_index = b })

highlight_region-IsRegion : IsRegion highlight_region
highlight_region-IsRegion = record {
  length-read = λ d. refl;
  read-write = λ bytes d h. one_byte bytes h;
}

abbrev pub unit_region : Region (GameUnitData ℤ)
unit_region = single (λ d. d.number) (λ b d. record d { number = b })

pub unit_region-IsRegion : IsRegion unit_region
unit_region-IsRegion = record {
  length-read = λ d. refl;
  read-write = λ bytes d h. one_byte bytes h;
}

abbrev pub obstacle_region : Region (GameObstacleData ℤ)
obstacle_region = single (λ d. 0) (λ b d. d)

-- A package of one byte that came from session 20.
abbrev pub one : ℕ → MessageData
one type = record {
  header = record { message_id = 7; content_type = type; content_length = 1 };
  content = 1 ∷ replicate 511 0;
  network_server_session = some 20;
}

pub one-IsWellFormed : (type : ℕ) → type < 256 → IsWellFormed (one type)
one-IsWellFormed type h = record {
  is_header = record {
    message_id_lt = omega arith;
    content_type_lt = h;
    content_length_lt = omega arith;
  };
  length_content = omega (arith, length-replicate {A = ℕ} 511 0);
  content_length_le = omega arith;
}

abbrev pub network : GameNetworkServer ℕ
network = record {
  message_handlers = [];
  next_player_id = 5;
  player_profiles = record { player_id = 4; session = some 20 } ∷ [];
}

abbrev profile : PlayerProfile
profile = record { player_id = 4; session = some 20 }

abbrev server : GameServer ℤ ℤ ℕ
server = record { game_network_server = some network; game = some game }

abbrev move_data : MoveData ℤ
move_data = record { unit_index = 0; angle = pos 0; strength = pos 0 }

abbrev highlight_data : HighlightData
highlight_data = record { unit_index = 0; is_highlighted = false }

found : unit_by_index 4 1 game ≡ some (piece 300 100 4 false)
unfolding unit_by_index find_index
found = refl

keeps : (v : GameUnit ℤ) → (set_highlighted true v).owner ≡ v.owner
unfolding set_highlighted
keeps v = refl

change_unit-units_of_example :
    (h : Game ℤ ℤ) × (change_unit (set_highlighted true) 1 (some profile) server
      ≡ (record server { game = some h }, []))
    × (units_of 4 h.game_units
        ≡ set (units_of 4 game.game_units) 1 (set_highlighted true (piece 300 100 4 false)))
    × ((q : ℕ) → q ≢ 4 → units_of q h.game_units ≡ units_of q game.game_units)
change_unit-units_of_example =
    change_unit-units_of (set_highlighted true) 1 profile server game (piece 300 100 4 false) keeps
      (omega arith) refl found

abbrev pub unit_garbage : GameUnitData ℤ
unit_garbage = (piece 9 9 9 true).game_unit_data

abbrev pub obstacle_garbage : GameObstacleData ℤ
obstacle_garbage = record { x = pos 9; y = pos 9; radius = pos 9 }

abbrev pub memory : Memory ℤ ℕ
memory = record {
  unit_region = unit_region;
  obstacle_region = obstacle_region;
  unit_garbage = unit_garbage;
  obstacle_garbage = obstacle_garbage;
  hunting = true;
  update_of = λ id. id;
}

new_to_the_client : unit_by_id 7 game.game_units ≡ none
unfolding unit_by_id
new_to_the_client = refl

handle_game_unit-unit_by_id_example :
    (u : GameUnit ℤ) × (h : Game ℤ ℤ) × (hs' : List (MessageHandler ℕ)) × (handle_game_unit
        whole_numbers memory
        (one 2)
        game
        []
      ≡ some (h, hs'))
    × (h.game_units ≡ game.game_units ++ u ∷ [])
    × (unit_by_id 7 h.game_units ≡ some u)
    × (unit_region.read u.game_unit_data ≡ payload (one 2))
    × (handle_game_unit whole_numbers memory (one 2) h hs' ≡ some (h, hs'))
handle_game_unit-unit_by_id_example =
    handle_game_unit-unit_by_id whole_numbers memory (one 2) game []
      (record {
        is_well_formed = one-IsWellFormed 2 (omega arith);
        is_region = unit_region-IsRegion;
        size_le = omega arith;
        content_type_eq = refl;
        content_length_eq = refl;
      })
      new_to_the_client

abbrev registry : Registry ℕ
registry = record { message_handlers = []; next_message_id = 3 }
