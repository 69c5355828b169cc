-- ===== src/Requests.antt =====
-- uist-game/MoveRequest.*, HighlightRequest.* and NewPlayerID.*: the messages that are sent once, to
-- ask for something or to tell a client its ID.
pub mod Reading
pub mod Sending
use footscreen.Base.{ℕ, Bool, true, false, Option, some, List, [], ◌>>=◌}
use footscreen.Floats.{Floats}
use footscreen.MessageData.{MessageData, message_id_event, id_none}
use footscreen.Handlers.{
  MessageHandler, message_move_request, message_highlight_request, message_new_player_id,
}
use footscreen.Message.{
  Message, Region, new_message, register_message_type, set_message_id, create_from_data,
  update_frequency_once,
}

pub record MoveData (F : Type 0) : Type 0 where
  pub unit_index : ℕ
  pub angle : F
  pub strength : F

pub record HighlightData : Type 0 where
  pub unit_index : ℕ
  pub is_highlighted : Bool

pub record PlayerData : Type 0 where
  pub player_id : ℕ

-- The setters of the three requests, on their data.
abbrev pub set_unit_index : {F : Type 0} → ℕ → MoveData F → MoveData F
set_unit_index index d = record d { unit_index = index }

abbrev pub set_angle : {F : Type 0} → F → MoveData F → MoveData F
set_angle angle d = record d { angle = angle }

abbrev pub set_strength : {F : Type 0} → F → MoveData F → MoveData F
set_strength strength d = record d { strength = strength }

abbrev pub set_highlight_unit_index : ℕ → HighlightData → HighlightData
set_highlight_unit_index index d = record d { unit_index = index }

abbrev pub set_highlight : Bool → HighlightData → HighlightData
set_highlight is_highlighted d = record d { is_highlighted = is_highlighted }

abbrev pub set_new_player_id : ℕ → PlayerData → PlayerData
set_new_player_id id d = record d { player_id = id }

pub record Request (D : Type 0) : Type 0 where
  pub message : Message D
  pub network_data : D

module _ {C : Type 0} (self : C) (attached : Bool) where
  -- What the three constructors have in common. No handler is added for the ID of an event.
  unfoldable pub new_request :
      {D : Type 0}
      → ℕ
      → Region D
      → D
      → List (MessageHandler C)
      → Request D × List (MessageHandler C)
  unfolding set_message_id
  new_request type region initial hs =
      let (m, hs') =
        set_message_id self message_id_event
          (register_message_type type region region.size update_frequency_once
            (new_message attached))
          hs in
      (record { message = m; network_data = initial }, hs')

  -- `garbage` is what memory held, since the index of the unit is not set.
  unfoldable pub new_move_request :
      {F D : Type 0}
      → Floats F D
      → Region (MoveData F)
      → MoveData F
      → List (MessageHandler C)
      → Request (MoveData F) × List (MessageHandler C)
  unfolding new_request
  new_move_request f region garbage =
      new_request message_move_request region
        (record garbage { angle = f.lit 0; strength = f.lit 0 })

  unfoldable pub new_highlight_request :
      Region HighlightData
      → HighlightData
      → List (MessageHandler C)
      → Request HighlightData × List (MessageHandler C)
  unfolding new_request
  new_highlight_request region garbage =
      new_request message_highlight_request region (record garbage { is_highlighted = true })

  unfoldable pub new_player_id :
      Region PlayerData → List (MessageHandler C) → Request PlayerData × List (MessageHandler C)
  unfolding new_request
  new_player_id region = new_request message_new_player_id region (record { player_id = id_none })

-- `createFromData` on a request that was made without an interface, and then its data.
unfoldable pub read_request :
    {C D : Type 0} → C → MessageData → Request D × List (MessageHandler C) → Option D
read_request self incoming (r, hs) =
    create_from_data self incoming r.message hs r.network_data >>= λ (m, hs', d). some d
