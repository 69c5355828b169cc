-- ===== src/Tests/Overwriting.antt =====
-- A package from a stranger that changes a unit of a player.
use footscreen.Base.{
  ℕ, ◌+◌, ◌*◌, ◌/◌, ◌%◌, ◌==◌, Bool, List, ap, length, replicate, length-replicate, if◌then◌else◌,
  ◌≡◌, refl, true, false, none, some, [], ◌∷◌, arith,
}
use footscreen.Base.Int.{ℤ, pos, negsuc}
use footscreen.MessageData.{MessageData, IsWellFormed, payload, message_id_first}
use footscreen.Handlers.{add_message_handler}
use footscreen.Message.{Region, IsRegion, RegisteredMessageType}
use footscreen.Message.Types.{IsRegistered}
use footscreen.Units.{GameUnit, GameUnitData}
use footscreen.Game.{Game, unit_by_id, obstacle_by_id}
use footscreen.Server.{handle_message_received, player_profile_by_session, sender_warning}
use footscreen.GameServer.Callbacks.{run_callback}
use footscreen.GameServer.Overwriting.{
  TellsOwnerAndLife, serving, handle_message_received-unit_by_id,
}
use footscreen.Tests.Data.{byte, whole_numbers}
use footscreen.Tests.Play.{piece, game}
use footscreen.Tests.Requests.{unit_garbage}
use footscreen.Tests.Moves.{memory, network}

abbrev steps : ℤ → ℕ
steps (pos n) = n
steps (negsuc n) = n + 1

-- The number, the owner, and the life with half of a coordinate that is not negative.
abbrev three_members : Region (GameUnitData ℤ)
three_members = record {
  size = 3;
  read = λ d. d.number ∷ d.owner ∷ (2 * steps d.x + (if d.is_living then 1 else 0)) ∷ [];
  write = λ bytes d. record d {
    number = byte 0 bytes;
    owner = byte 1 bytes;
    x = pos (byte 2 bytes / 2);
    is_living = byte 2 bytes % 2 == 1;
  };
}

halves : (n : ℕ) → 2 * (n / 2) + (if n % 2 == 1 then 1 else 0) ≡ n
halves n = ground arith

three_bytes :
    (bytes : List ℕ)
    → length bytes ≡ 3
    → three_members.read (three_members.write bytes unit_garbage) ≡ bytes
three_bytes [] h = absurd (omega arith)
three_bytes (a ∷ []) h = absurd (omega arith)
three_bytes (a ∷ b ∷ []) h = absurd (omega arith)
three_bytes (a ∷ b ∷ c ∷ []) h = ap (λ n. a ∷ b ∷ n ∷ []) (halves c)
three_bytes (a ∷ b ∷ c ∷ d ∷ bytes) h = absurd (omega arith)

three_members-IsRegion : IsRegion three_members
three_members-IsRegion = record {
  length-read = λ d. refl;
  read-write = λ bytes d h. three_bytes bytes h;
}

-- Number 1, dead, and owned by the second client.
abbrev wanted : GameUnitData ℤ
wanted = record {
  x = pos 0;
  y = pos 9;
  number = 1;
  owner = 5;
  is_highlighted = false;
  is_living = false;
  has_arrived = false;
}

even : (n : ℕ) (b : Bool) → 2 * n + (if b then 1 else 0) ≡ 0 → b ≡ false
even n true h = absurd (omega arith)
even n false h = refl

wanted-told : TellsOwnerAndLife three_members wanted
wanted-told d e =
    (ap (λ bytes. byte 1 bytes) e, even (steps d.x) d.is_living (ap (λ bytes. byte 2 bytes) e))

abbrev murder : MessageData
murder = record {
  header = record { message_id = 7; content_type = 2; content_length = 3 };
  content = 1 ∷ 5 ∷ 0 ∷ replicate 509 0;
  network_server_session = none;
}

murder-IsWellFormed : IsWellFormed murder
murder-IsWellFormed = record {
  is_header = record {
    message_id_lt = omega arith;
    content_type_lt = omega arith;
    content_length_lt = omega arith;
  };
  length_content = omega (arith, length-replicate {A = ℕ} 509 0);
  content_length_le = omega arith;
}

abbrev registered : RegisteredMessageType (GameUnitData ℤ)
registered = record {
  is_sending_enabled = true;
  header = record { message_id = 7; content_type = 2; content_length = 3 };
  region = three_members;
  update_frequency = 3;
}

registered-IsRegistered : IsRegistered 7 registered
registered-IsRegistered = record {
  is_header = record {
    message_id_lt = omega arith;
    content_type_lt = omega arith;
    content_length_lt = omega arith;
  };
  is_region = three_members-IsRegion;
  content_length_eq = refl;
  size_le = omega arith;
  message_id_eq = refl;
}

abbrev mine : GameUnit ℤ
mine = record (piece 300 100 4 false) {
  message = record {
    is_attached = true;
    registered_message_types = registered ∷ [];
    message_id = 7;
  };
}

abbrev board : Game ℤ ℤ
board = record game { game_units = mine ∷ []; game_obstacles = [] }

board-mine : unit_by_id 7 board.game_units ≡ some mine
unfolding unit_by_id
board-mine = refl

board-obstacles : obstacle_by_id 7 board.game_obstacles ≡ none
unfolding obstacle_by_id
board-obstacles = refl

handle_message_received-unit_by_id_example :
    (d : GameUnitData ℤ) × (h : Game ℤ ℤ) × (handle_message_received
        (run_callback whole_numbers memory)
        77
        murder
        network
        (some (serving whole_numbers memory network board mine registered murder 77 board, []))
      ≡ record {
        state = some (serving whole_numbers memory network board mine registered murder 77 h, []);
        logged = sender_warning (player_profile_by_session (some 77) network.player_profiles);
        session_closed = false;
      })
    × (unit_by_id 7 h.game_units ≡ some (record mine { game_unit_data = d }))
    × (three_members.read d ≡ payload murder)
    × (d.owner ≡ 5)
    × (d.is_living ≡ false)
unfolding add_message_handler
handle_message_received-unit_by_id_example =
    handle_message_received-unit_by_id whole_numbers memory network board mine registered murder 77
      message_id_first 16 refl refl (omega arith) (omega arith) (omega arith) refl board-mine
      board-obstacles refl registered-IsRegistered refl refl murder-IsWellFormed wanted refl
      wanted-told
