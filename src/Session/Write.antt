-- ===== src/Session/Write.antt =====
-- Outgoing packages of a session: `deliver` and `handleWrite` among the completions of the network.
use mathlib.Core.Option.{some-injective}
use footscreen.Base.{
  ℕ, ◌+◌, ◌≡◌, refl, sym, ap, ◌∙◌, Bool, true, false, Option, none, some, List, [], ◌∷◌, ◌++◌,
  append-nil, append_assoc, arith, is_some,
}
use footscreen.MessageData.{MessageData, HeaderLayout}
use footscreen.Actions.{Action, async_write}
use footscreen.Session.{Session, deliver, handle_write, write_front}

-- A session with the write that is under way, the packages handed to `send`, those written, and
-- whether a write was started while another one was under way.
pub record Link : Type 0 where
  pub session : Session
  pub writing : Option (MessageData × ℕ)
  pub accepted : List MessageData
  pub written : List MessageData
  pub overlapped : Bool

abbrev pub either : Bool → Bool → Bool
either true b = true
either false b = b

abbrev pub perform : List Action → Link → Link
perform [] k = k
perform (async_write m n ∷ rest) k =
    perform rest
      (record k { writing = some (m, n); overlapped = either k.overlapped (is_some k.writing) })
perform (other ∷ rest) k = perform rest k

abbrev pub after : Session × List Action → Link → Link
after (s, actions) k = perform actions (record k { session = s })

-- A call of `send`, or the end of the write that is under way, which has succeeded or failed.
pub data Step (l : HeaderLayout) (k : Link) : Link → Type 0 where
  sends :
      (m : MessageData)
      → Step l k (after (deliver l m k.session) (record k { accepted = k.accepted ++ m ∷ [] }))
  completes :
      (m : MessageData) (n : ℕ) (out : Session × List Action)
      → k.writing ≡ some (m, n)
      → handle_write l false k.session ≡ some out
      → Step l k (after out (record k { writing = none; written = k.written ++ m ∷ [] }))
  fails :
      (m : MessageData) (n : ℕ) (out : Session × List Action)
      → k.writing ≡ some (m, n)
      → handle_write l true k.session ≡ some out
      → Step l k (after out (record k { writing = none }))

pub data Reach (l : HeaderLayout) (k : Link) : Link → Type 0 where
  here : Reach l k k
  next : {j i : Link} → Reach l k j → Step l j i → Reach l k i

-- Nothing is queued; or the front is being written, all of it; or a write has failed.
pub data Status (l : HeaderLayout) (k : Link) : Type 0 where
  resting : k.session.write_message_queue ≡ [] → k.writing ≡ none → Status l k
  busy :
      (m : MessageData) (rest : List MessageData)
      → k.session.write_message_queue ≡ m ∷ rest
      → k.writing ≡ some (m, l.header_length + m.header.content_length)
      → Status l k
  broken :
      (m : MessageData) (rest : List MessageData)
      → k.session.write_message_queue ≡ m ∷ rest
      → k.writing ≡ none
      → Status l k

pub record IsInOrder (l : HeaderLayout) (k : Link) : Type 0 where
  pub order : k.accepted ≡ k.written ++ k.session.write_message_queue
  pub alone : k.overlapped ≡ false
  pub status : Status l k

module _ (l : HeaderLayout) where
  -- The two branches of `deliver`, by the queue.
  deliver-empty :
      (m : MessageData) (s : Session)
      → s.write_message_queue ≡ []
      → deliver l m s ≡ (record s { write_message_queue = m ∷ [] }, write_front l m ∷ [])
  unfolding deliver
  deliver-empty m s e = ground arith

  pub deliver-waiting :
      (m f : MessageData) (rest : List MessageData) (s : Session)
      → s.write_message_queue ≡ f ∷ rest
      → deliver l m s ≡ (record s { write_message_queue = f ∷ (rest ++ m ∷ []) }, [])
  unfolding deliver
  deliver-waiting m f rest s e = ground arith

  handle_write-last :
      (f : MessageData) (s : Session)
      → s.write_message_queue ≡ f ∷ []
      → handle_write l false s ≡ some (record s { write_message_queue = [] }, [])
  unfolding handle_write
  handle_write-last f s e = ground arith

  handle_write-more :
      (f g : MessageData) (rest : List MessageData) (s : Session)
      → s.write_message_queue ≡ f ∷ g ∷ rest
      → handle_write l false s
        ≡ some (record s { write_message_queue = g ∷ rest }, write_front l g ∷ [])
  unfolding handle_write
  handle_write-more f g rest s e = ground arith

  sends-IsInOrder :
      (m : MessageData) (k : Link)
      → IsInOrder l k
      → Status l k
      → IsInOrder l (after (deliver l m k.session) (record k { accepted = k.accepted ++ m ∷ [] }))
  sends-IsInOrder m k o (resting q w) = rw (deliver-empty m k.session q) record {
    order = ap (λ xs. xs ++ m ∷ []) (o.order ∙ ap (◌++◌ k.written) q ∙ append-nil k.written);
    alone = ground arith;
    status = busy m [] refl refl;
  }
  sends-IsInOrder m k o (busy f rest q w) = rw (deliver-waiting m f rest k.session q) record {
    order =
        ap (λ xs. xs ++ m ∷ []) (o.order ∙ ap (◌++◌ k.written) q)
        ∙ append_assoc k.written (f ∷ rest) (m ∷ []);
    alone = o.alone;
    status = busy f (rest ++ m ∷ []) refl w;
  }
  sends-IsInOrder m k o (broken f rest q w) = rw (deliver-waiting m f rest k.session q) record {
    order =
        ap (λ xs. xs ++ m ∷ []) (o.order ∙ ap (◌++◌ k.written) q)
        ∙ append_assoc k.written (f ∷ rest) (m ∷ []);
    alone = o.alone;
    status = broken f (rest ++ m ∷ []) refl w;
  }

  completes-IsInOrder :
      (m : MessageData) (n : ℕ) (out : Session × List Action) (k : Link)
      → IsInOrder l k
      → Status l k
      → k.writing ≡ some (m, n)
      → handle_write l false k.session ≡ some out
      → IsInOrder l (after out (record k { writing = none; written = k.written ++ m ∷ [] }))
  completes-IsInOrder m n out k o (resting q w) e h = absurd (cc)
  completes-IsInOrder m n out k o (broken f rest q w) e h = absurd (cc)
  completes-IsInOrder m n out k o (busy f [] q w) e h =
      let same : f ≡ m = ground arith in
      rw (← same) (
        rw (← some-injective _ _ (sym (handle_write-last f k.session q) ∙ h)) record {
          order = o.order ∙ ap (◌++◌ k.written) q ∙ sym (append-nil (k.written ++ f ∷ []));
          alone = o.alone;
          status = resting refl refl;
        })
  completes-IsInOrder m n out k o (busy f (g ∷ rest) q w) e h =
      let same : f ≡ m = ground arith in
      rw (← same) (
        rw (← some-injective _ _ (sym (handle_write-more f g rest k.session q) ∙ h)) record {
          order =
              o.order ∙ ap (◌++◌ k.written) q ∙ sym (append_assoc k.written (f ∷ []) (g ∷ rest));
          alone = ground arith;
          status = busy g rest refl refl;
        })

  fails-IsInOrder :
      (m : MessageData) (n : ℕ) (k : Link)
      → IsInOrder l k
      → Status l k
      → k.writing ≡ some (m, n)
      → IsInOrder l (record k { writing = none })
  fails-IsInOrder m n k o (resting q w) e = absurd (cc)
  fails-IsInOrder m n k o (broken f rest q w) e = absurd (cc)
  fails-IsInOrder m n k o (busy f rest q w) e = record {
    order = o.order;
    alone = o.alone;
    status = broken f rest q refl;
  }

  Step-IsInOrder : {k j : Link} → Step l k j → IsInOrder l k → IsInOrder l j
  unfolding handle_write
  Step-IsInOrder {k} (sends m) o = sends-IsInOrder m k o o.status
  Step-IsInOrder {k} (completes m n out e h) o = completes-IsInOrder m n out k o o.status e h
  Step-IsInOrder {k} (fails m n out e h) o =
      rw (← some-injective _ _ h) (fails-IsInOrder m n k o o.status e)

  -- However calls of `send` and completed or failed writes interleave, from a link in order: the
  -- packages written, followed by the queue, are those accepted, in order; no write has started
  -- during another one; and the queue is empty with no write under way, or its front is being written
  -- whole, or it waits with no write under way.
  pub Reach-IsInOrder : {k j : Link} → IsInOrder l k → Reach l k j → IsInOrder l j
  Reach-IsInOrder o here = o
  Reach-IsInOrder o (next r st) = Step-IsInOrder st (Reach-IsInOrder o r)

  handle_write-total :
      (k : Link) (m : MessageData) (n : ℕ)
      → Status l k
      → k.writing ≡ some (m, n)
      → (out : Session × List Action) × (handle_write l false k.session ≡ some out)
  handle_write-total k m n (resting q w) e = absurd (cc)
  handle_write-total k m n (broken f rest q w) e = absurd (cc)
  handle_write-total k m n (busy f [] q w) e = (_, handle_write-last f k.session q)
  handle_write-total k m n (busy f (g ∷ rest) q w) e = (_, handle_write-more f g rest k.session q)

  -- `handleWrite` never pops an empty queue: in every state with a write under way that is reached
  -- from one in order, the successful end of that write is handled and returns.
  pub Reach-handle_write :
      {k j : Link} (m : MessageData) (n : ℕ)
      → IsInOrder l k
      → Reach l k j
      → j.writing ≡ some (m, n)
      → (out : Session × List Action) × (handle_write l false j.session ≡ some out)
  Reach-handle_write {j = j} m n o r e = handle_write-total j m n (Reach-IsInOrder o r).status e
