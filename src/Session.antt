-- ===== src/Session.antt =====
-- uist-game/NetworkServerSession.h and NetworkServerSession.cpp: one connection of the server. A
-- handler returns the session and what it asks for; `none` is memory written out of bounds or a
-- queue popped while it is empty. The socket and the mutex have no state here.
pub mod Read
pub mod Overflow
pub mod Framing
pub mod Write
pub mod Stuck
use footscreen.Base.{ℕ, ◌+◌, Bool, true, false, Option, none, some, List, [], ◌∷◌, ◌++◌, ◌>>=◌}
use footscreen.MessageData.{MessageData, HeaderLayout, copy_header_from, copy_content_from}
use footscreen.Actions.{
  Level, info, warning, Action, logs, async_read, async_write, message_received, closed,
  read_header, read_body,
}

pub record Session : Type 0 where
  pub read_buffer : List ℕ
  pub current_message : MessageData
  pub write_message_queue : List MessageData

module _ (l : HeaderLayout) where
  unfoldable pub start : Session → Session × List Action
  start s = (s, logs info ∷ async_read l.header_length read_header ∷ [])

  unfoldable pub handle_read_header : Bool → Session → Option (Session × List Action)
  handle_read_header true s = some (s, logs warning ∷ closed ∷ [])
  handle_read_header false s = copy_header_from l s.read_buffer s.current_message >>= λ m.
      some (record s { current_message = m }, async_read m.header.content_length read_body ∷ [])

  unfoldable pub handle_read_body : Bool → Session → Option (Session × List Action)
  handle_read_body true s = some (s, logs warning ∷ closed ∷ [])
  handle_read_body false s = copy_content_from s.read_buffer s.current_message >>= λ m. some (
    record s { current_message = m },
    message_received m ∷ async_read l.header_length read_header ∷ [],
  )

  abbrev pub write_front : MessageData → Action
  write_front m = async_write m (l.header_length + m.header.content_length)

  unfoldable pub deliver : MessageData → Session → Session × List Action
  deliver m s = elim s.write_message_queue [
    | [] ↦ (record s { write_message_queue = m ∷ [] }, write_front m ∷ [])
    | front ∷ rest ↦ (record s { write_message_queue = front ∷ (rest ++ m ∷ []) }, [])
  ]

  unfoldable pub send : MessageData → Session → Session × List Action
  unfolding deliver
  send = deliver

  -- The queue behind its front, and the write that starts on it.
  unfoldable pub pop_front : List MessageData → Session → Option (Session × List Action)
  pop_front [] s = none
  pop_front (front ∷ []) s = some (record s { write_message_queue = [] }, [])
  pop_front (front ∷ next ∷ rest) s =
      some (record s { write_message_queue = next ∷ rest }, write_front next ∷ [])

  unfoldable pub handle_write : Bool → Session → Option (Session × List Action)
  unfolding pop_front
  handle_write true s = some (s, logs warning ∷ closed ∷ [])
  handle_write false s = pop_front s.write_message_queue s
