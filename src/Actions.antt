-- ===== src/Actions.antt =====
-- What the network classes ask of `boost::asio` and what they signal, in the order in which a
-- handler does it; the levels of uist-game/Logging.h.
use footscreen.Base.{ℕ, Bool}
use footscreen.MessageData.{MessageData}

pub data Level : Type 0 where
  error warning info debug : Level

-- Which handler an `async_read` is bound to.
pub data Phase : Type 0 where
  read_header read_body : Phase

-- `async_write m n` sends the first `n` bytes of the object `m`.
pub data Action : Type 0 where
  logs : Level → Action
  async_read : ℕ → Phase → Action
  async_write : MessageData → ℕ → Action
  async_connect : Action
  message_received : MessageData → Action
  closed : Action
  connection_established : Action
  connection_closed : Action
  connection_failed : Action
  post_unload : Bool → Action
  post_deliver : MessageData → Action
