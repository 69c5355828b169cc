-- ===== src/Handlers.antt =====
-- uist-game/MessageTypes.h, MessageHandler.h, MessageHandler.cpp, GameNetworkInterface.h and
-- GameNetworkInterface.cpp: handlers of incoming packages and their dispatch. `C` is the type of the
-- callbacks, `S` the state that they change, and `run` what a callback does.
pub mod Dispatch
use footscreen.Base.{
  ℕ, Bool, true, false, ◌&&◌, ◌||◌, Option, none, some, List, [], ◌∷◌, ◌++◌, ◌==◌, if◌then◌else◌,
}
use footscreen.MessageData.{MessageData, message_id_none, message_id_all}
use footscreen.Actions.{Level, error}

abbrev pub message_undefined : ℕ
message_undefined = 0

abbrev pub message_all_types : ℕ
message_all_types = 1

abbrev pub message_game_unit : ℕ
message_game_unit = 2

abbrev pub message_move_request : ℕ
message_move_request = 3

abbrev pub message_highlight_request : ℕ
message_highlight_request = 4

abbrev pub message_game_obstacle : ℕ
message_game_obstacle = 5

abbrev pub message_new_player_id : ℕ
message_new_player_id = 6

pub record MessageHandler (C : Type 0) : Type 0 where
  pub message_type : ℕ
  pub message_id : ℕ
  pub message_handler_callback : Option C

module _ {C : Type 0} where
  abbrev pub new_message_handler : MessageHandler C
  new_message_handler = record {
    message_type = message_undefined;
    message_id = message_id_none;
    message_handler_callback = none;
  }

  abbrev pub set_message_type : ℕ → MessageHandler C → MessageHandler C
  set_message_type type h = record h { message_type = type }

  abbrev pub set_message_id : ℕ → MessageHandler C → MessageHandler C
  set_message_id id h = record h { message_id = id }

  abbrev pub set_message_handler_callback : C → MessageHandler C → MessageHandler C
  set_message_handler_callback callback h = record h { message_handler_callback = some callback }

  unfoldable pub matches_message_id : MessageHandler C → ℕ → Bool
  matches_message_id h id = h.message_id == message_id_all || id == h.message_id

  unfoldable pub matches_content_type : MessageHandler C → ℕ → Bool
  matches_content_type h type = h.message_type == message_all_types || type == h.message_type

  unfoldable pub handles : MessageHandler C → ℕ → ℕ → Bool
  unfolding matches_message_id matches_content_type
  handles h type id = matches_content_type h type && matches_message_id h id

  unfoldable pub add_message_handler : ℕ → ℕ → C → List (MessageHandler C) → List (MessageHandler C)
  add_message_handler type id callback hs =
      hs
      ++ set_message_handler_callback callback
          (set_message_id id (set_message_type type new_message_handler))
        ∷ []

  unfoldable pub remove_all_message_handlers : ℕ → List (MessageHandler C) → List (MessageHandler C)
  remove_all_message_handlers id [] = []
  remove_all_message_handlers id (h ∷ hs) =
      let rest = remove_all_message_handlers id hs in if h.message_id == id then rest else h ∷ rest

  unfoldable pub clear_message_handlers : List (MessageHandler C) → List (MessageHandler C)
  clear_message_handlers hs = []

module _ {C S : Type 0} (run : C → MessageData → ℕ → S → S) where
  abbrev pub call : Option C → MessageData → ℕ → S → S
  call none m player s = s
  call (some c) m player s = run c m player s

  unfoldable pub handle : MessageHandler C → MessageData → ℕ → S → S × List Level
  handle h m player s =
      if handles h m.header.content_type m.header.message_id
      then (call h.message_handler_callback m player s, [])
      else (s, error ∷ [])

  -- The loop over the copied list, with the flag `handlerFound`.
  unfoldable pub handle_loop : List (MessageHandler C) → Bool → MessageData → ℕ → S → S × List Level
  unfolding handle
  handle_loop [] true m sender s = (s, [])
  handle_loop [] false m sender s = (s, error ∷ [])
  handle_loop (h ∷ hs) found m sender s =
      elim (handles h m.header.content_type m.header.message_id) [
        | false ↦ handle_loop hs found m sender s
        | true ↦
            let (s', logged) = handle h m sender s in
            let (end, more) = handle_loop hs true m sender s' in (end, logged ++ more)
      ]

  unfoldable pub handle_message : List (MessageHandler C) → MessageData → ℕ → S → S × List Level
  unfolding handle_loop
  handle_message hs m sender s = handle_loop hs false m sender s
