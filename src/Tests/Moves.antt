-- ===== src/Tests/Moves.antt =====
-- A move request on its way from a client to a running server.
use footscreen.Base.{
  ℕ, inl, ◌++◌, ◌+◌, ◌*◌, ◌/◌, ◌%◌, ◌≡◌, refl, sym, ap, ◌∙◌, true, false, some, List, [], ◌∷◌,
  length, ◌==◌, if◌then◌else◌, arith,
}
use footscreen.Base.Int.{ℤ, pos, negsuc}
use footscreen.Message.{Region}
use footscreen.MessageData.{MessageData, message_id_first}
use footscreen.Handlers.{MessageHandler, message_move_request}
use footscreen.Requests.{MoveData}
use footscreen.Requests.Sending.{IsCarried}
use footscreen.Game.Moving.{move_unit}
use footscreen.Game.Sending.{append}
use footscreen.Server.{
  GameNetworkServer, PlayerProfile, handle_message_received, player_profile_by_session,
}
use footscreen.GameServer.{GameServer, change_unit, accelerate}
use footscreen.GameServer.Callbacks.{
  Callback, RequestMemory, initialize_message_handlers, run_callback,
}
use footscreen.GameServer.Loading.{game_callbacks}
use footscreen.GameServer.Loading.Reloading.{game_handlers}
use footscreen.GameServer.Loading.Quiet.{load_game-quiet}
use footscreen.Game.Level.Registration.{count_up, owned}
use footscreen.GameServer.RoundTrip.{move_unit-handle_message_received}
use footscreen.Tests.Data.{byte, whole_numbers, header, buffer, length-buffer}
use footscreen.Tests.Play.{game}
use footscreen.Tests.Requests.{unit_region, obstacle_region, unit_garbage, obstacle_garbage}

-- Whole numbers as natural ones.
abbrev encode : ℤ → ℕ
encode (pos n) = 2 * n
encode (negsuc n) = 2 * n + 1

abbrev decode : ℕ → ℤ
decode n = if n % 2 == 0 then pos (n / 2) else negsuc (n / 2)

encode-decode : (n : ℕ) → encode (decode n) ≡ n
encode-decode n = ground arith

decode-encode : (a : ℤ) → decode (encode a) ≡ a
decode-encode (pos n) = ground arith
decode-encode (negsuc n) = ground arith

abbrev region : Region (MoveData ℤ)
region = record {
  size = 3;
  read = λ d. d.unit_index ∷ encode d.angle ∷ encode d.strength ∷ [];
  write = λ bytes d. record {
    unit_index = byte 0 bytes;
    angle = decode (byte 1 bytes);
    strength = decode (byte 2 bytes);
  };
}

three_bytes :
    (bytes : List ℕ) (d : MoveData ℤ)
    → length bytes ≡ 3
    → region.read (region.write bytes d) ≡ bytes
three_bytes [] d h = absurd (omega arith)
three_bytes (a ∷ []) d h = absurd (omega arith)
three_bytes (a ∷ b ∷ []) d h = absurd (omega arith)
three_bytes (a ∷ b ∷ c ∷ []) d h = λ i. a ∷ encode-decode b i ∷ encode-decode c i ∷ []
three_bytes (a ∷ b ∷ c ∷ e ∷ rest) d h = absurd (omega arith)

written : (d e : MoveData ℤ) → region.write (region.read d) e ≡ d
written d e i = record {
  unit_index = d.unit_index;
  angle = decode-encode d.angle i;
  strength = decode-encode d.strength i;
}

region-IsCarried : IsCarried message_move_request region
region-IsCarried = record {
  is_region = record { length-read = λ d. refl; read-write = three_bytes };
  is_faithful =
      λ d e same. sym (written d d) ∙ ap (λ bytes. region.write bytes d) same ∙ written e d;
  size_le = omega arith;
  type_lt = omega arith;
}

abbrev client : ℕ
client = 100

abbrev old : MoveData ℤ
old = record { unit_index = 9; angle = pos 0; strength = pos 0 }

abbrev pub memory : RequestMemory ℤ
memory = record {
  move_region = region;
  move_garbage = old;
  highlight_region = record {
    size = 1;
    read = λ d. d.unit_index ∷ [];
    write = λ bytes d. record d { unit_index = byte 0 bytes };
  };
  highlight_garbage = record { unit_index = 0; is_highlighted = false };
  player_region = record {
    size = 1;
    read = λ d. d.player_id ∷ [];
    write = λ bytes d. record { player_id = byte 0 bytes };
  };
  objects = record {
    unit_region = unit_region;
    obstacle_region = obstacle_region;
    unit_garbage = unit_garbage;
    obstacle_garbage = obstacle_garbage;
    hunting = true;
    update_of = Callback.updates;
  };
}

abbrev profile : PlayerProfile
profile = record { player_id = 4; session = some 20 }

-- What loading a level of sixteen objects adds to the server's own handlers.
abbrev pub level_handlers : List (MessageHandler Callback)
level_handlers =
    game_handlers game_callbacks
    ++ owned whole_numbers memory.objects (count_up message_id_first 16)

abbrev pub network : GameNetworkServer Callback
network = record {
  message_handlers = initialize_message_handlers [] ++ level_handlers;
  next_player_id = 5;
  player_profiles = profile ∷ [];
}

abbrev server : GameServer ℤ ℤ Callback
server = record { game_network_server = some network; game = some game }

known : player_profile_by_session (some 20) network.player_profiles ≡ some profile
unfolding player_profile_by_session
known = refl

move_unit-handle_message_received_example :
    (m : MessageData) × (move_unit append
        (λ l n. n)
        header
        buffer
        client
        true
        whole_numbers
        region
        old
        []
        1
        (pos 2)
        (negsuc 3)
        []
      ≡ append m [])
    × (handle_message_received (run_callback whole_numbers memory) 20 m network (some (server, []))
        ≡ record {
          state = some (
              change_unit
                (accelerate whole_numbers
                  (record { unit_index = 1; angle = pos 2; strength = negsuc 3 }))
                1
                (some profile)
                server);
          logged = [];
          session_closed = false;
        })
move_unit-handle_message_received_example =
    move_unit-handle_message_received whole_numbers memory server network profile 20 refl
      level_handlers refl known append (λ l n. n) header buffer length-buffer client [] 1
      (omega arith) []
      (load_game-quiet whole_numbers memory.objects game_callbacks message_move_request
        message_id_first 16 (inl refl) (omega arith))
      region-IsCarried old (pos 2) (negsuc 3)
