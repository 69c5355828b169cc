-- ===== src/Tests/Sending.antt =====
-- A game of one unit that a new client is sent.
use footscreen.Base.{ℕ, All, ◌≡◌, refl, true, false, some, List, [], ◌∷◌, ◌++◌, map, arith}
use footscreen.Base.Int.{ℤ, pos, ◌+ℤ◌, ◌-ℤ◌, ◌*ℤ◌}
use footscreen.MessageData.{MessageData}
use footscreen.Actions.{Level}
use footscreen.Handlers.{message_new_player_id}
use footscreen.Message.{Region, Message, RegisteredMessageType}
use footscreen.Units.{GameUnitData, reflect_on_walls, move}
use footscreen.Game.{Game, proceed}
use footscreen.Game.Sending.{IsSendable, append, id_of}
use footscreen.Game.Updates.{handle_new_player_id}
use footscreen.Requests.{PlayerData}
use footscreen.Requests.Sending.{IsCarried}
use footscreen.Server.{GameNetworkServer, PlayerProfile, player_profile_by_session}
use footscreen.GameServer.{GameServer}
use footscreen.GameServer.Running.{next, playing, loop_turn, stop_server, loop_turn-stop_server-ids}
use footscreen.GameServer.Welcome.{welcome_session, welcome_session-handle_new_player_id}
use footscreen.Tests.Data.{whole_numbers, byte, buffer, length-buffer, header, sample}
use footscreen.Tests.Play.{piece, game}
use footscreen.Tests.Requests.{one_byte, unit_region, unit_region-IsRegion}

abbrev unit_type : RegisteredMessageType (GameUnitData ℤ)
unit_type = record {
  is_sending_enabled = true;
  header = record { message_id = 7; content_type = 2; content_length = 1 };
  region = unit_region;
  update_frequency = 3;
}

abbrev unit_message : Message (GameUnitData ℤ)
unit_message = record {
  is_attached = true;
  registered_message_types = unit_type ∷ [];
  message_id = 7;
}

unit_message-IsSendable : IsSendable unit_message
unit_message-IsSendable = record {
  type = unit_type;
  only = refl;
  enabled = refl;
  registered = record {
    is_header = record {
      message_id_lt = omega arith;
      content_type_lt = omega arith;
      content_length_lt = omega arith;
    };
    is_region = unit_region-IsRegion;
    content_length_eq = refl;
    size_le = omega arith;
    message_id_eq = refl;
  };
}

abbrev alone : Game ℤ ℤ
alone = record game {
  game_units = record (piece 100 100 4 false) { message = unit_message } ∷ [];
  game_obstacles = [];
}

abbrev unheard : Level → List MessageData → List MessageData
unheard level n = n

abbrev player_region : Region PlayerData
player_region = record {
  size = 1;
  read = λ d. d.player_id ∷ [];
  write = λ bytes d. record { player_id = byte 0 bytes };
}

first_byte : List ℕ → ℕ
first_byte [] = 0
first_byte (b ∷ bs) = b

player_region-IsCarried : IsCarried message_new_player_id player_region
unfolding first_byte
player_region-IsCarried = record {
  is_region = record { length-read = λ d. refl; read-write = λ bytes d h. one_byte bytes h };
  is_faithful = λ d e same i. record { player_id = first_byte (same i) };
  size_le = omega arith;
  type_lt = omega arith;
}

abbrev profile : PlayerProfile
profile = record { player_id = 4; session = some 20 }

abbrev network : GameNetworkServer ℕ
network = record { message_handlers = []; next_player_id = 5; player_profiles = profile ∷ [] }

abbrev server : GameServer ℤ ℤ ℕ
server = record { game_network_server = some network; game = some alone }

known : player_profile_by_session (some 20) network.player_profiles ≡ some profile
unfolding player_profile_by_session
known = refl

abbrev owner : ℕ
owner = 100

welcome_session-handle_new_player_id_example :
    (m : MessageData) × (ps : List MessageData) × (welcome_session append unheard header buffer
        owner player_region 20 server
        (sample ∷ [])
      ≡ some (((sample ∷ []) ++ m ∷ []) ++ ps))
    × ((h : Game ℤ ℤ)
        → handle_new_player_id owner player_region m h ≡ some (record h { own_player_id = 4 }))
    × (map id_of ps
        ≡ map (λ u. u.message.message_id) alone.game_units
          ++ map (λ o. o.message.message_id) alone.game_obstacles)
welcome_session-handle_new_player_id_example =
    welcome_session-handle_new_player_id unheard header buffer length-buffer owner owner
      player_region player_region-IsCarried server network profile alone 20 refl refl known
      (sample ∷ []) (unit_message-IsSendable, tt) tt

abbrev later : Game ℤ ℤ
later =
    next whole_numbers (pos 1) (pos 10) (λ i. pos 10) unheard header buffer length-buffer network
      alone

later_units : All (λ u. IsSendable u.message) later.game_units
unfolding proceed ◌+ℤ◌ ◌-ℤ◌ ◌*ℤ◌ reflect_on_walls move
later_units = (unit_message-IsSendable, tt)

later_obstacles : All (λ o. IsSendable o.message) later.game_obstacles
unfolding proceed
later_obstacles = tt

loop_turn-stop_server-ids_example :
    ((ps : List MessageData) × (loop_turn whole_numbers
          (pos 1)
          (pos 10)
          (λ i. pos 10)
          append
          unheard
          header
          buffer
          (playing network alone)
          []
        ≡ some (true, playing network later, [] ++ ps))
      × (map id_of ps
          ≡ map (λ u. u.message.message_id) later.game_units
            ++ map (λ o. o.message.message_id) later.game_obstacles))
    × ((t : GameServer ℤ ℤ ℕ) × (stop_server (playing network alone) ≡ some t)
        × ((k : List MessageData)
            → loop_turn whole_numbers
                (pos 1)
                (pos 10)
                (λ i. pos 10)
                append
                unheard
                header
                buffer
                t
                k
              ≡ some (false, t, k)))
loop_turn-stop_server-ids_example =
    loop_turn-stop_server-ids whole_numbers (pos 1) (pos 10) (λ i. pos 10) unheard header buffer
      length-buffer network alone [] later_units later_obstacles
