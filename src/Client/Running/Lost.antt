-- ===== src/Client/Running/Lost.antt =====
-- The client's thread after the server has closed the connection.
use footscreen.Base.{ℕ, ◌≡◌, refl, true, false, some, List, ◌∷◌, [], ◌++◌, inr}
use footscreen.MessageData.{MessageData, HeaderLayout}
use footscreen.Actions.{logs, warning, async_read, read_header, Phase, read_body, connection_closed}
use footscreen.Client.{NetworkClient, accepts_connection, send}
use footscreen.Framework.{fault}
use footscreen.Client.Running.{Thread, finish_turn, serve, serves, finishes, Reach, here, next}

-- The connection is up, and a read of the next package is all that the service has to do.
pub record IsReading (phase : Phase) (n : ℕ) (t : Thread) : Type 0 where
  pub serves : t.serving ≡ true
  pub runs : t.stopped ≡ false
  pub connected : t.client.is_connected ≡ true
  pub reads : t.pending ≡ async_read n phase ∷ []

module _ (l : HeaderLayout) where
  -- After the failed read.
  abbrev lost : List ℕ → Thread → Thread
  lost bytes t = record t {
    client = record t.client { read_buffer = bytes };
    stopped = false;
    pending = [];
    signals = (t.signals ++ logs warning ∷ []) ++ connection_closed ∷ [];
  }

  serve-lost :
      (phase : Phase) (n : ℕ) (bytes : List ℕ) (t : Thread)
      → serve l (async_read n phase) bytes true [] t ≡ some (lost bytes t)
  unfolding serve
  serve-lost read_header n bytes t = refl
  serve-lost read_body n bytes t = refl

  -- When the service has nothing to do but to read the next package and the read fails, whatever was
  -- read, the client signals that the connection is closed, the service is out of work, and the turn can
  -- end at once. Then the client still counts as connected although it has no service: whatever is sent
  -- follows a null pointer.
  pub serve-finish_turn-send :
      (phase : Phase) (n : ℕ) (bytes : List ℕ) (t : Thread)
      → IsReading phase n t
      → (u : Thread) × (serve l (async_read n phase) bytes true [] t ≡ some u)
        × (u.signals ≡ (t.signals ++ logs warning ∷ []) ++ connection_closed ∷ [])
        × Reach l false t (finish_turn u)
        × ((finish_turn u).client.is_connected ≡ true)
        × (accepts_connection (finish_turn u).client ≡ false)
        × ((m : MessageData) (turns : List NetworkClient)
            → send m ((finish_turn u).client ∷ turns) ≡ fault)
  unfolding finish_turn accepts_connection send
  serve-finish_turn-send phase n bytes t r =
      let failing = serve-lost phase n bytes t in
      (
        lost bytes t,
        failing,
        refl,
        next
            (next here (
              serves (async_read n phase) [] [] bytes true (lost bytes t) r.serves r.runs r.reads
                failing))
            (finishes r.serves (inr refl)),
        r.connected,
        refl,
        λ m turns. rw r.connected refl,
      )
