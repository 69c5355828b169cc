-- ===== src/Session/Framing.antt =====
-- What one side writes the other side reads: the packages of a session as a stream of bytes.
use footscreen.Base.{
  ℕ, suc, ◌+◌, ◌*◌, ◌≡◌, sym, ap, ◌∙◌, some, List, [], ◌∷◌, ◌++◌, map, length, take, arith,
  append_assoc, map-append, length-append, length-take, take-append_whole, take-add-append,
  append-nil, drop-append, All,
}
use footscreen.MessageData.{
  MessageData, MessageHeader, HeaderLayout, IsLayout, payload, IsWellFormed,
}
use footscreen.Actions.{Action, async_write, read_header, read_body}
use footscreen.Session.{write_front}
use footscreen.Session.Read.{
  Reader, reading, receive, receive-step, arrive-header, arrive-body, IsSized,
}

-- The bytes that a write sends: the first ones of the object, whose header is followed by the buffer.
abbrev pub transmit : HeaderLayout → Action → List ℕ
transmit l (async_write m n) = take n (l.encode m.header ++ m.content)
transmit l other = []

abbrev pub transmit_all : HeaderLayout → List MessageData → List ℕ
transmit_all l [] = []
transmit_all l (m ∷ ms) = transmit l (write_front l m) ++ transmit_all l ms

-- What arrives of a package.
abbrev pub view : MessageData → MessageHeader × List ℕ
view m = (m.header, payload m)

-- A reader between two packages.
pub record IsAwaiting (l : HeaderLayout) (r : Reader) : Type 0 where
  pub awaits_header : r.pending ≡ reading l.header_length read_header
  pub sized : IsSized r

module _ (l : HeaderLayout) (laws : IsLayout l) where
  -- A write sends the header and then the payload.
  pub transmit-write_front :
      (m : MessageData)
      → IsWellFormed m
      → transmit l (write_front l m) ≡ l.encode m.header ++ payload m
  transmit-write_front m w =
      take-add-append l.header_length m.header.content_length (l.encode m.header) m.content
        (sym (laws.length-encode m.header))

  receive-one :
      (r : Reader) (fuel : ℕ) (m : MessageData) (rest : List ℕ)
      → IsWellFormed m
      → IsAwaiting l r
      → (q : Reader) × (receive l (suc (suc fuel)) r (transmit l (write_front l m) ++ rest)
          ≡ receive l fuel q rest)
        × (map view q.received ≡ map view r.received ++ view m ∷ [])
        × IsAwaiting l q
  receive-one r fuel m rest w a =
      let h = m.header in
      let whole : length (payload m) ≡ h.content_length =
        omega
          (arith, length-take h.content_length m.content, w.length_content, w.content_length_le) in
      let (q, arrives, waits, old, current, qs) = arrive-header l laws r a.sized h w.is_header in
      let (p, m', arrives', waits', more, head, body, ps) =
        arrive-body l laws q qs h (payload m) w.is_header (sym whole)
          (omega (arith, whole, w.content_length_le)) current in
      let tail = payload m ++ rest in
      let first : receive l (suc (suc fuel)) r (l.encode h ++ tail) ≡ receive l (suc fuel) q tail =
        receive-step l (suc fuel) r q (l.encode h ++ tail) l.header_length read_header
          a.awaits_header (omega (arith, laws.length-encode h, length-append (l.encode h) tail))
          (rw (take-append_whole l.header_length (l.encode h) tail (sym (laws.length-encode h)))
            arrives)
        ∙ ap (receive l (suc fuel) q)
            (drop-append l.header_length (l.encode h) tail (sym (laws.length-encode h))) in
      let second : receive l (suc fuel) q tail ≡ receive l fuel p rest =
        receive-step l fuel q p tail h.content_length read_body waits
          (omega (arith, whole, length-append (payload m) rest))
          (rw (take-append_whole h.content_length (payload m) rest (sym whole)) arrives')
        ∙ ap (receive l fuel p) (drop-append h.content_length (payload m) rest (sym whole)) in
      (
        p,
        ap (λ bytes. receive l (suc (suc fuel)) r (bytes ++ rest)) (transmit-write_front m w)
            ∙ ap (receive l (suc (suc fuel)) r) (append_assoc (l.encode h) (payload m) rest)
            ∙ first
            ∙ second,
        ap (map view) more
            ∙ map-append view q.received (m' ∷ [])
            ∙ ap (λ rs. map view rs ++ view m' ∷ []) old
            ∙ ap (λ (v : MessageHeader × List ℕ). map view r.received ++ v ∷ [])
                (λ i. (head i, body i)),
        record { awaits_header = waits'; sized = ps },
      )

  -- Two reads for each package.
  receive_packages :
      (ms : List MessageData) (r : Reader) (fuel : ℕ) (rest : List ℕ)
      → All IsWellFormed ms
      → IsAwaiting l r
      → (q : Reader) × (receive l (2 * length ms + fuel) r (transmit_all l ms ++ rest)
          ≡ receive l fuel q rest)
        × (map view q.received ≡ map view r.received ++ map view ms)
        × IsAwaiting l q
  receive_packages [] r fuel rest w a =
      (r, ap (λ k. receive l k r rest) {x = 2 * 0 + fuel} (omega arith), sym (append-nil _), a)
  receive_packages (m ∷ ms) r fuel rest w a =
      let more = transmit_all l ms ++ rest in
      let sent = transmit l (write_front l m) in
      let (q, e, v, b) = receive-one r (2 * length ms + fuel) m more w.0 a in
      let (p, e', v', c) = receive_packages ms q fuel rest w.1 b in
      (
        p,
        ap (λ k. receive l k r ((sent ++ transmit_all l ms) ++ rest))
              {x = 2 * suc (length ms) + fuel} {y = suc (suc (2 * length ms + fuel))} (omega arith)
            ∙ ap (receive l (suc (suc (2 * length ms + fuel))) r)
                (append_assoc sent (transmit_all l ms) rest)
            ∙ e
            ∙ e',
        v'
            ∙ ap (λ vs. vs ++ map view ms) v
            ∙ append_assoc (map view r.received) (view m ∷ []) (map view ms),
        c,
      )

  -- A reader between two packages that is sent the bytes of well-formed packages signals exactly
  -- these, in order, header and payload alike, with two reads for each; it leaves the bytes behind
  -- them in the stream and is between two packages again.
  pub receive-transmit_all :
      (ms : List MessageData) (r : Reader) (rest : List ℕ)
      → All IsWellFormed ms
      → IsAwaiting l r
      → (q : Reader) × (receive l (2 * length ms) r (transmit_all l ms ++ rest) ≡ some (q, rest))
        × (map view q.received ≡ map view r.received ++ map view ms)
        × IsAwaiting l q
  unfolding receive
  receive-transmit_all ms r rest w a =
      let (q, e, v, b) = receive_packages ms r 0 rest w a in
      (
        q,
        ap (λ k. receive l k r (transmit_all l ms ++ rest)) {x = 2 * length ms}
              {y = 2 * length ms + 0} (omega arith)
            ∙ e,
        v,
        b,
      )
