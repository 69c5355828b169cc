-- ===== src/Session/Read.antt =====
-- Incoming bytes of a session: the stream cut into reads, as `async_read` promises it, and what one
-- read does to the session.
use native.Mathlib.Nat.{le_refl}
use footscreen.Base.{
  ℕ, zero, suc, ◌≤◌, ◌≡◌, refl, ◌∙◌, Bool, false, true, Option, some, List, [], ◌∷◌, ◌++◌, length,
  take, drop, leb, ◌>>=◌, arith, le→leb, take-append, take-length, ap, length-append, length-drop,
}
use footscreen.MessageData.{
  MessageData, MessageHeader, HeaderLayout, IsLayout, IsHeader, max_message_length, memcpy, payload,
  IsWellFormed, set_header,
}
use footscreen.MessageData.Copy.{memcpy-fits, copy_header_from-encode, copy_content_from-payload}
use footscreen.Actions.{Action, async_read, message_received, Phase, read_header, read_body}
use footscreen.Session.{Session, handle_read_header, handle_read_body}

-- The read that is under way, if one is.
pub data Pending : Type 0 where
  idle : Pending
  reading : ℕ → Phase → Pending

-- A session, the read it waits for, and the packages that it has signalled.
pub record Reader : Type 0 where
  pub session : Session
  pub pending : Pending
  pub received : List MessageData

abbrev pub perform : List Action → Reader → Reader
perform [] r = r
perform (async_read n phase ∷ rest) r = perform rest (record r { pending = reading n phase })
perform (message_received m ∷ rest) r = perform rest (record r { received = r.received ++ m ∷ [] })
perform (other ∷ rest) r = perform rest r

abbrev pub handle : HeaderLayout → Phase → Bool → Session → Option (Session × List Action)
handle l read_header = handle_read_header l
handle l read_body = handle_read_body l

-- The bytes that were asked for are in the read buffer, and the bound handler runs.
unfoldable pub arrive : HeaderLayout → Phase → List ℕ → Reader → Option Reader
unfolding handle_read_header handle_read_body
arrive l phase bytes r = memcpy (length bytes) bytes r.session.read_buffer >>= λ buffer.
    handle l phase false (record r.session { read_buffer = buffer }) >>= λ (s, actions).
    some (perform actions (record r { session = s; pending = idle }))

-- Reads while the stream holds as many bytes as are asked for; the fuel bounds their number.
unfoldable pub receive : HeaderLayout → ℕ → Reader → List ℕ → Option (Reader × List ℕ)
receive l zero r bytes = some (r, bytes)
receive l (suc fuel) r bytes = elim r.pending [
  | idle ↦ some (r, bytes)
  | reading n phase ↦ elim (leb n (length bytes)) [
    | true ↦ arrive l phase (take n bytes) r >>= λ q. receive l fuel q (drop n bytes)
    | false ↦ some (r, bytes)
  ]
]

-- Both buffers have their 512 bytes.
pub record IsSized (r : Reader) : Type 0 where
  pub read_buffer_length : length r.session.read_buffer ≡ max_message_length
  pub content_length : length r.session.current_message.content ≡ max_message_length

module _ (l : HeaderLayout) (laws : IsLayout l) (r : Reader) (sized : IsSized r) where
  -- A header read makes it the current header and asks for as many bytes as it announces.
  pub arrive-header :
      (h : MessageHeader)
      → IsHeader h
      → (q : Reader) × (arrive l read_header (l.encode h) r ≡ some q)
        × (q.pending ≡ reading h.content_length read_body)
        × (q.received ≡ r.received)
        × (q.session.current_message.header ≡ h)
        × IsSized q
  unfolding arrive set_header
  arrive-header h range =
      let bytes = l.encode h in
      let buffer = r.session.read_buffer in
      let short : length bytes ≤ length buffer =
        omega (arith, laws.length-encode h, laws.header_length_le, sized.read_buffer_length) in
      let read = bytes ++ drop (length bytes) buffer in
      let s : Session = record r.session {
        read_buffer = read;
        current_message = set_header h r.session.current_message;
      } in
      (
        record r { session = s; pending = reading h.content_length read_body },
        rw (memcpy-fits (length bytes) bytes buffer (le_refl _) short) (
            rw (take-length (length bytes) bytes refl) (
              rw
                (copy_header_from-encode l h (drop (length bytes) buffer) r.session.current_message
                  laws range)
                refl)),
        refl,
        refl,
        refl,
        record {
          read_buffer_length = omega (
            arith,
            length-append bytes (drop (length bytes) buffer),
            length-drop (length bytes) buffer,
            sized.read_buffer_length,
          );
          content_length = sized.content_length;
        },
      )

  -- A body read completes the package and asks for the next header.
  pub arrive-body :
      (h : MessageHeader) (bytes : List ℕ)
      → IsHeader h
      → h.content_length ≡ length bytes
      → length bytes ≤ max_message_length
      → r.session.current_message.header ≡ h
      → (q : Reader) × (m : MessageData) × (arrive l read_body bytes r ≡ some q)
        × (q.pending ≡ reading l.header_length read_header)
        × (q.received ≡ r.received ++ m ∷ [])
        × (m.header ≡ h)
        × (payload m ≡ bytes)
        × IsSized q
  unfolding arrive
  arrive-body h bytes range n short current =
      let buffer = r.session.read_buffer in
      let old = r.session.current_message in
      let read = bytes ++ drop (length bytes) buffer in
      let room : length bytes ≤ length buffer = omega (arith, sized.read_buffer_length) in
      let same : old.header.content_length ≡ length bytes =
        ap (λ (k : MessageHeader). k.content_length) current ∙ n in
      let long : old.header.content_length ≤ length read =
        omega (arith, length-append bytes (drop (length bytes) buffer)) in
      let formed : IsWellFormed old = record {
        is_header = rw current range;
        length_content = sized.content_length;
        content_length_le = omega arith;
      } in
      let (m, copied, header, content, out) = copy_content_from-payload read old formed long in
      (
        record r {
          session = record r.session { read_buffer = read; current_message = m };
          pending = reading l.header_length read_header;
          received = r.received ++ m ∷ [];
        },
        m,
        rw (memcpy-fits (length bytes) bytes buffer (le_refl _) room)
            (rw (take-length (length bytes) bytes refl) (rw copied refl)),
        refl,
        refl,
        header ∙ current,
        content
            ∙ ap (λ k. take k read) same
            ∙ take-append (length bytes) bytes _ (le_refl _)
            ∙ take-length (length bytes) bytes refl,
        record {
          read_buffer_length = omega (
            arith,
            length-append bytes (drop (length bytes) buffer),
            length-drop (length bytes) buffer,
            sized.read_buffer_length,
          );
          content_length = out.length_content;
        },
      )

-- One read of the stream.
pub receive-step :
    (l : HeaderLayout) (fuel : ℕ) (r q : Reader) (bytes : List ℕ) (n : ℕ) (phase : Phase)
    → r.pending ≡ reading n phase
    → n ≤ length bytes
    → arrive l phase (take n bytes) r ≡ some q
    → receive l (suc fuel) r bytes ≡ receive l fuel q (drop n bytes)
unfolding receive
receive-step l fuel r q bytes n phase waits enough arrives = ground (arith, le→leb n (length bytes))
