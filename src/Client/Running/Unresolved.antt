-- ===== src/Client/Running/Unresolved.antt =====
-- The client's thread after an address that does not resolve.
use footscreen.Base.{◌≡◌, refl, ◌∙◌, true, false, some, ◌∷◌, [], ◌++◌, arith}
use footscreen.MessageData.{HeaderLayout}
use footscreen.Actions.{logs, error}
use footscreen.Client.{accepts_connection, start_accept, stop, send}
use footscreen.Client.Running.{
  Thread, perform, act, begin_turn, Step, connects, stops, reconnects, sends, begins, serves,
  finishes, Reach, here, next,
}

-- The thread waits for an address, and a service that nobody runs is set.
pub record IsAbandoned (t : Thread) : Type 0 where
  pub waits : t.serving ≡ false
  pub set : t.client.io_service ≡ true
  pub unaddressed : t.client.server_address ≡ false

begin_turn-IsAbandoned :
    (t u : Thread)
    → t.serving ≡ false
    → begin_turn false t ≡ some u
    → IsAbandoned u × (u.signals ≡ t.signals ++ logs error ∷ [])
unfolding begin_turn
begin_turn-IsAbandoned t u off e = ground arith

module _ (l : HeaderLayout) where
  stops-IsAbandoned :
      (t : Thread)
      → IsAbandoned t
      → IsAbandoned (act (stop false t.client) t)
        × ((act (stop false t.client) t).signals ≡ t.signals)
  unfolding act stop
  stops-IsAbandoned t a = ground arith

  Step-IsAbandoned :
      {t u : Thread} → Step l false t u → IsAbandoned t → IsAbandoned u × (u.signals ≡ t.signals)
  unfolding act start_accept send perform
  Step-IsAbandoned (connects called off) a = absurd (cc)
  Step-IsAbandoned {t} stops a = stops-IsAbandoned t a
  Step-IsAbandoned (reconnects out e) a = ground arith
  Step-IsAbandoned (sends m actions on e) a = ground arith
  Step-IsAbandoned (begins resolved u off known e) a = absurd (let k = a.unaddressed in cc)
  Step-IsAbandoned (serves x before after bytes failed u on go e out) a =
      absurd (let k = a.waits in cc)
  Step-IsAbandoned (finishes on done) a = absurd (let k = a.waits in cc)

  Reach-IsAbandoned :
      {t u : Thread} → IsAbandoned t → Reach l false t u → IsAbandoned u × (u.signals ≡ t.signals)
  Reach-IsAbandoned a here = (a, refl)
  Reach-IsAbandoned a (next r st) =
      let (mid, old) = Reach-IsAbandoned a r in
      let (end, new) = Step-IsAbandoned st mid in (end, new ∙ old)

  -- A turn that begins with an address that does not resolve logs one error, and from then on nothing
  -- is signalled, neither that the connection failed nor that it is closed, whatever the other threads
  -- call but `connectToServer`: not even `stop` is answered. All the while the client accepts
  -- connections, as far as `acceptsConnection` tells, and its thread waits.
  pub Reach-begin_turn_unresolved :
      (t u : Thread) {v : Thread}
      → t.serving ≡ false
      → begin_turn false t ≡ some u
      → Reach l false u v
      → (v.signals ≡ t.signals ++ logs error ∷ [])
        × (accepts_connection v.client ≡ true)
        × (v.serving ≡ false)
  unfolding accepts_connection
  Reach-begin_turn_unresolved t u off e r =
      let (begun, first) = begin_turn-IsAbandoned t u off e in
      let (end, later) = Reach-IsAbandoned begun r in (later ∙ first, end.set, end.waits)
