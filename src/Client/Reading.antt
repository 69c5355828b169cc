-- ===== src/Client/Reading.antt =====
-- Incoming bytes of a client: `handleReadHeader` and `handleReadBody` of uist-game/NetworkClient.cpp on
-- a stream, beside those of a session of the server.
use mathlib.Core.Path.{subst}
use mathlib.Core.Option.{some-injective}
use footscreen.Base.{
  ℕ, zero, suc, ◌*◌, ◌≡◌, refl, sym, ap, ◌∙◌, false, true, Bool, Option, none, some, List, [], ◌∷◌,
  ◌++◌, map, length, take, drop, leb, ◌>>=◌, All, Option-cases, Bool-cases, inl, inr, ◌⊎◌,
}
use footscreen.MessageData.{
  MessageData, HeaderLayout, IsLayout, memcpy, IsWellFormed, copy_header_from, copy_content_from,
}
use footscreen.Actions.{Action, async_read, message_received, Phase, read_header, read_body}
use footscreen.Session.{Session}
use footscreen.Session.Read.{Pending, idle, reading, Reader, IsSized}
use footscreen.Session.Read
use footscreen.Session.Framing.{transmit_all, view, IsAwaiting, receive-transmit_all}
use footscreen.Client.{NetworkClient, handle_read_header, handle_read_body}

-- A client, the read it waits for, and the packages that it has signalled.
pub record ClientReader : Type 0 where
  pub client : NetworkClient
  pub pending : Pending
  pub received : List MessageData

abbrev pub perform : List Action → ClientReader → ClientReader
perform [] r = r
perform (async_read n phase ∷ rest) r = perform rest (record r { pending = reading n phase })
perform (message_received m ∷ rest) r = perform rest (record r { received = r.received ++ m ∷ [] })
perform (other ∷ rest) r = perform rest r

abbrev pub handle :
    HeaderLayout → Phase → Bool → NetworkClient → Option (NetworkClient × List Action)
handle l read_header = handle_read_header l
handle l read_body = handle_read_body l

unfoldable pub arrive : HeaderLayout → Phase → List ℕ → ClientReader → Option ClientReader
unfolding handle_read_header handle_read_body
arrive l phase bytes r = memcpy (length bytes) bytes r.client.read_buffer >>= λ buffer.
    handle l phase false (record r.client { read_buffer = buffer }) >>= λ (c, actions).
    some (perform actions (record r { client = c; pending = idle }))

unfoldable pub receive : HeaderLayout → ℕ → ClientReader → List ℕ → Option (ClientReader × List ℕ)
receive l zero r bytes = some (r, bytes)
receive l (suc fuel) r bytes = elim r.pending [
  | idle ↦ some (r, bytes)
  | reading n phase ↦ elim (leb n (length bytes)) [
    | true ↦ arrive l phase (take n bytes) r >>= λ q. receive l fuel q (drop n bytes)
    | false ↦ some (r, bytes)
  ]
]

-- The members that a client shares with a session.
abbrev pub session_of : NetworkClient → Session
session_of c = record {
  read_buffer = c.read_buffer;
  current_message = c.current_message;
  write_message_queue = c.write_message_queue;
}

abbrev pub reader_of : ClientReader → Reader
reader_of r = record { session = session_of r.client; pending = r.pending; received = r.received }

-- The end of some reads, as one of a session.
abbrev as_session : Option (ClientReader × List ℕ) → Option (Reader × List ℕ)
as_session o = o >>= λ (q, rest). some (reader_of q, rest)

Pending-cases : (p : Pending) → (p ≡ idle) ⊎ ((n : ℕ) × (phase : Phase) × (p ≡ reading n phase))
Pending-cases idle = inl refl
Pending-cases (reading n phase) = inr (n, phase, refl)

module _ (l : HeaderLayout) where
  -- A read does to the client what it does to a session.
  arrive-reader_of :
      (phase : Phase) (bytes : List ℕ) (r : ClientReader)
      → (arrive l phase bytes r >>= λ q. some (reader_of q))
        ≡ Read.arrive l phase bytes (reader_of r)
  unfolding arrive Read.arrive
  arrive-reader_of read_header bytes r =
      elim (Option-cases (memcpy (length bytes) bytes r.client.read_buffer)) [
        | inl e ↦ rw e refl
        | inr (buffer, e) ↦
            rw e (elim (Option-cases (copy_header_from l buffer r.client.current_message)) [
              | inl e' ↦ rw e' refl
              | inr (m, e') ↦ rw e' refl
            ])
      ]
  arrive-reader_of read_body bytes r =
      elim (Option-cases (memcpy (length bytes) bytes r.client.read_buffer)) [
        | inl e ↦ rw e refl
        | inr (buffer, e) ↦
            rw e (elim (Option-cases (copy_content_from buffer r.client.current_message)) [
              | inl e' ↦ rw e' refl
              | inr (m, e') ↦ rw e' refl
            ])
      ]

  -- A client reads any stream as a session does, short streams and faults included.
  receive-reader_of :
      (fuel : ℕ) (r : ClientReader) (bytes : List ℕ)
      → as_session (receive l fuel r bytes) ≡ Read.receive l fuel (reader_of r) bytes
  unfolding receive Read.receive
  receive-reader_of zero r bytes = refl
  receive-reader_of (suc fuel) r bytes = elim (Pending-cases r.pending) [
    | inl e ↦ rw e refl
    | inr (n, phase, e) ↦ elim (Bool-cases (leb n (length bytes))) [
      | inr short ↦ rw (e, receive, Read.receive, short) refl
      | inl long ↦ elim (Option-cases (arrive l phase (take n bytes) r)) [
        | inl fails ↦
            let theirs : Read.arrive l phase (take n bytes) (reader_of r) ≡ none =
              sym (arrive-reader_of phase (take n bytes) r)
              ∙ ap (λ (o : Option ClientReader). o >>= λ q. some (reader_of q)) fails in
            rw (e, receive, Read.receive, long, fails)
              (sym (
                ap (λ (o : Option Reader). o >>= λ q. Read.receive l fuel q (drop n bytes)) theirs))
        | inr (q, done) ↦
            let theirs : Read.arrive l phase (take n bytes) (reader_of r) ≡ some (reader_of q) =
              sym (arrive-reader_of phase (take n bytes) r)
              ∙ ap (λ (o : Option ClientReader). o >>= λ q. some (reader_of q)) done in
            rw (e, receive, Read.receive, long)
              (ap
                  (λ (o : Option ClientReader).
                    as_session (o >>= λ q. receive l fuel q (drop n bytes)))
                  done
                ∙ receive-reader_of fuel q (drop n bytes)
                ∙ sym (
                    ap (λ (o : Option Reader). o >>= λ q. Read.receive l fuel q (drop n bytes))
                      theirs))
      ]
    ]
  ]

  module _ (laws : IsLayout l) where
    -- What a session of the server writes, a client reads: a client between two packages that is sent
    -- the bytes of well-formed packages signals exactly these, in order, header and payload alike, with
    -- two reads for each; it leaves the bytes behind them in the stream and is between two packages
    -- again.
    pub receive-transmit_all_client :
        (ms : List MessageData) (r : ClientReader) (rest : List ℕ)
        → All IsWellFormed ms
        → IsAwaiting l (reader_of r)
        → (q : ClientReader) × (receive l (2 * length ms) r (transmit_all l ms ++ rest)
            ≡ some (q, rest))
          × (map view q.received ≡ map view r.received ++ map view ms)
          × IsAwaiting l (reader_of q)
    receive-transmit_all_client ms r rest formed waits =
        let stream = transmit_all l ms ++ rest in
        let (p, e, views, again) = receive-transmit_all l laws ms (reader_of r) rest formed waits in
        let both = receive-reader_of (2 * length ms) r stream ∙ e in
        elim (Option-cases (receive l (2 * length ms) r stream)) [
          | inl none_ ↦ absurd (let clash = ap as_session none_ in cc)
          | inr ((q, left), done) ↦
              let same = some-injective _ _ (sym (ap as_session done) ∙ both) in
              (
                q,
                done ∙ (λ i. some (q, (same i).1)),
                ap (λ (s : Reader × List ℕ). map view s.0.received) same ∙ views,
                subst (λ (s : Reader × List ℕ). IsAwaiting l s.0) (sym same) again,
              )
        ]
