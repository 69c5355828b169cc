-- ===== src/Client/Delivery.antt =====
-- From `send` of a session of the server (uist-game/NetworkServerSession.cpp) to the packages that a
-- client signals (uist-game/NetworkClient.cpp).
use mathlib.Core.Path.{subst}
use footscreen.Base.{
  ◌*◌, ◌≡◌, sym, ap, ◌∙◌, some, List, [], ◌∷◌, ◌++◌, map, length, All, append_assoc, map-append,
}
use footscreen.MessageData.{HeaderLayout, IsLayout, IsWellFormed}
use footscreen.Session.Framing.{transmit_all, view, IsAwaiting}
use footscreen.Session.Write.{Link, Reach, IsInOrder, Reach-IsInOrder}
use footscreen.Client.Reading.{ClientReader, reader_of, receive, receive-transmit_all_client}

All-front : {A : Type 0} (P : A → Type 0) (xs ys : List A) → All P (xs ++ ys) → All P xs
All-front P [] ys h = tt
All-front P (x ∷ xs) ys h = (h.0, All-front P xs ys h.1)

module _ (l : HeaderLayout) (laws : IsLayout l) where
  -- However the calls of `send` and the ends of writes interleave on a session of the server, from a
  -- session in order: a client between two packages that is sent what the session has written signals
  -- the packages handed to `send`, header and payload alike, in order and without a gap, all but those
  -- that still wait in the session's queue. This is where these packages are well formed.
  pub Reach-receive :
      (k j : Link) (r : ClientReader)
      → IsInOrder l k
      → Reach l k j
      → All IsWellFormed j.accepted
      → IsAwaiting l (reader_of r)
      → (q : ClientReader) × (receive l (2 * length j.written) r (transmit_all l j.written ++ [])
          ≡ some (q, []))
        × (map view q.received ++ map view j.session.write_message_queue
            ≡ map view r.received ++ map view j.accepted)
  Reach-receive k j r ordered reach formed waits =
      let order = (Reach-IsInOrder l ordered reach).order in
      let queue = j.session.write_message_queue in
      let (q, e, views, again) =
        receive-transmit_all_client l laws j.written r []
          (All-front IsWellFormed j.written queue (subst (All IsWellFormed) order formed)) waits in
      (
        q,
        e,
        ap (λ vs. vs ++ map view queue) views
            ∙ append_assoc (map view r.received) (map view j.written) (map view queue)
            ∙ ap (◌++◌ (map view r.received))
                (sym (map-append view j.written queue) ∙ ap (map view) (sym order)),
      )
