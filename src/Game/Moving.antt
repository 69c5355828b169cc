-- ===== src/Game/Moving.antt =====
-- What a client of uist-game/Game.cpp asks of the server: `moveUnit` and `highlightUnit`.
use footscreen.Base.{ℕ, ◌%◌, Bool, Option, List}
use footscreen.Floats.{Floats}
use footscreen.MessageData.{MessageHeader, MessageData}
use footscreen.Actions.{Level}
use footscreen.Handlers.{MessageHandler}
use footscreen.Message.{Region, synchronize, update_frequency_once}
use footscreen.Requests.{
  MoveData, HighlightData, new_move_request, new_highlight_request, set_unit_index, set_angle,
  set_strength, set_highlight_unit_index, set_highlight,
}

-- `send` is the interface's with the server as the receiver; `attached` says that the interface is
-- set. The destructor of the request removes no handler, since an event has none.
module _ {C N : Type 0} (send : MessageData → N → Option N) (report : Level → N → N)
    (garbage : MessageHeader) (bytes : List ℕ) (self : C) (attached : Bool) where
  -- The index becomes a `uint8_t`.
  unfoldable pub move_unit :
      {F D : Type 0}
      → Floats F D
      → Region (MoveData F)
      → MoveData F
      → List (MessageHandler C)
      → ℕ
      → F
      → F
      → N
      → Option N
  unfolding new_move_request synchronize
  move_unit f region old hs index angle strength =
      let (r, hs') = new_move_request self attached f region old hs in
      synchronize send report garbage bytes attached update_frequency_once r.message
        (set_strength strength (set_angle angle (set_unit_index (index % 256) r.network_data)))

  unfoldable pub highlight_unit :
      Region HighlightData → HighlightData → List (MessageHandler C) → ℕ → Bool → N → Option N
  unfolding new_highlight_request synchronize
  highlight_unit region old hs index is_highlighted =
      let (r, hs') = new_highlight_request self attached region old hs in
      synchronize send report garbage bytes attached update_frequency_once r.message
        (set_highlight is_highlighted (set_highlight_unit_index (index % 256) r.network_data))
