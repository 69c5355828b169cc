-- ===== src/Client/Stall.antt =====
-- Outgoing packages of the client over several connections: `deliver`, `handleWrite`,
-- `handleConnect`, `load` and `unload` of uist-game/NetworkClient.cpp.
use footscreen.Base.{
  ℕ, ◌≡◌, refl, ◌∙◌, Bool, true, false, Option, none, some, List, [], ◌∷◌, ◌++◌, arith,
}
use footscreen.MessageData.{MessageData, HeaderLayout}
use footscreen.Actions.{Action, async_write}
use footscreen.Client.{
  NetworkClient, deliver, handle_write, handle_connect, load, unload, connect_to_server,
}

-- A client, the write that is under way, and the packages written.
pub record Line : Type 0 where
  pub client : NetworkClient
  pub writing : Option (MessageData × ℕ)
  pub written : List MessageData

abbrev pub perform : List Action → Line → Line
perform [] k = k
perform (async_write m n ∷ rest) k = perform rest (record k { writing = some (m, n) })
perform (other ∷ rest) k = perform rest k

abbrev pub after : NetworkClient × List Action → Line → Line
after (c, actions) k = perform actions (record k { client = c })

-- A package that is delivered, the end of a write, and the connections that come and go. A write
-- that is under way when the connection is unloaded ends with it.
pub data Step (l : HeaderLayout) (k : Line) : Line → Type 0 where
  delivers : (m : MessageData) → Step l k (after (deliver l m k.client) k)
  completes :
      (m : MessageData) (n : ℕ) (out : NetworkClient × List Action)
      → k.writing ≡ some (m, n)
      → handle_write l false k.client ≡ some out
      → Step l k (after out (record k { writing = none; written = k.written ++ m ∷ [] }))
  fails :
      (m : MessageData) (n : ℕ) (out : NetworkClient × List Action)
      → k.writing ≡ some (m, n)
      → handle_write l true k.client ≡ some out
      → Step l k (after out (record k { writing = none }))
  addresses : Step l k (record k { client = connect_to_server k.client })
  loads : Step l k (record k { client = load k.client })
  connects : Step l k (after (handle_connect l false k.client) k)
  unloads :
      (refused failed : Bool)
      → Step l k (record k { client = (unload refused failed k.client).0; writing = none })

pub data Reach (l : HeaderLayout) (k : Line) : Line → Type 0 where
  here : Reach l k k
  next : {j i : Line} → Reach l k j → Step l j i → Reach l k i

-- Packages are queued and none is under way.
pub record IsStalled (k : Line) : Type 0 where
  pub front : MessageData
  pub behind : List MessageData
  pub queued : k.client.write_message_queue ≡ front ∷ behind
  pub quiet : k.writing ≡ none

module _ (l : HeaderLayout) where
  deliver-waiting :
      (m f : MessageData) (rest : List MessageData) (c : NetworkClient)
      → c.write_message_queue ≡ f ∷ rest
      → deliver l m c ≡ (record c { write_message_queue = f ∷ (rest ++ m ∷ []) }, [])
  unfolding deliver
  deliver-waiting m f rest c e = ground arith

  deliver-disconnected :
      (m : MessageData) (c : NetworkClient)
      → c.write_message_queue ≡ []
      → c.is_connected ≡ false
      → deliver l m c ≡ (record c { write_message_queue = m ∷ [] }, [])
  unfolding deliver
  deliver-disconnected m c e off = ground arith

  Step-IsStalled : {k j : Line} → Step l k j → IsStalled k → IsStalled j × (j.written ≡ k.written)
  unfolding handle_connect load unload connect_to_server
  Step-IsStalled {k} (delivers m) s = rw (deliver-waiting m s.front s.behind k.client s.queued) (
    record { front = s.front; behind = s.behind ++ m ∷ []; queued = refl; quiet = s.quiet },
    refl,
  )
  Step-IsStalled (completes m n out e h) s = absurd (let q = s.quiet in cc)
  Step-IsStalled (fails m n out e h) s = absurd (let q = s.quiet in cc)
  Step-IsStalled addresses s =
      (record { front = s.front; behind = s.behind; queued = s.queued; quiet = s.quiet }, refl)
  Step-IsStalled loads s =
      (record { front = s.front; behind = s.behind; queued = s.queued; quiet = s.quiet }, refl)
  Step-IsStalled connects s =
      (record { front = s.front; behind = s.behind; queued = s.queued; quiet = s.quiet }, refl)
  Step-IsStalled (unloads refused failed) s =
      (record { front = s.front; behind = s.behind; queued = s.queued; quiet = refl }, refl)

  Reach-IsStalled : {k j : Line} → IsStalled k → Reach l k j → IsStalled j × (j.written ≡ k.written)
  Reach-IsStalled s here = (s, refl)
  Reach-IsStalled s (next r st) =
      let (mid, old) = Reach-IsStalled s r in
      let (end, new) = Step-IsStalled st mid in (end, new ∙ old)

  -- A package that is delivered while the client is not connected, with nothing queued or under way,
  -- blocks the queue for good: whatever is delivered, connected, unloaded or loaded later, no
  -- package is written any more.
  pub Reach-deliver_disconnected :
      (m : MessageData) (k : Line) {j : Line}
      → k.client.write_message_queue ≡ []
      → k.client.is_connected ≡ false
      → k.writing ≡ none
      → Reach l (after (deliver l m k.client) k) j
      → IsStalled j × (j.written ≡ k.written)
  Reach-deliver_disconnected m k {j} empty off quiet r =
      Reach-IsStalled {k = record k { client = record k.client { write_message_queue = m ∷ [] } }}
        (record { front = m; behind = []; queued = refl; quiet = quiet })
        (rw (deliver-disconnected m k.client empty off) at r)

  -- A connection that is unloaded while the queue is not empty blocks the queue for good as well:
  -- whatever is delivered, connected, unloaded or loaded later, no package is written any more.
  pub Reach-unload_writing :
      (m : MessageData) (rest : List MessageData) (refused failed : Bool) (k : Line) {j : Line}
      → k.client.write_message_queue ≡ m ∷ rest
      → Reach l (record k { client = (unload refused failed k.client).0; writing = none }) j
      → IsStalled j × (j.written ≡ k.written)
  unfolding unload
  Reach-unload_writing m rest refused failed k busy r =
      Reach-IsStalled (record { front = m; behind = rest; queued = busy; quiet = refl }) r
