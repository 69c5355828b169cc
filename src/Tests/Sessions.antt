-- ===== src/Tests/Sessions.antt =====
-- Packages and sessions.
use footscreen.MessageData.{MessageHeader}
use footscreen.Base.{
  ℕ, ◌+◌, ◌*◌, ◌≡◌, ◌≢◌, refl, true, false, none, some, [], ◌∷◌, ◌++◌, map, length, arith, All,
}
use footscreen.Actions.{read_header}
use footscreen.Session.{Session, handle_write, deliver}
use footscreen.Session.Read.{Reader, reading, receive}
use footscreen.Session.Framing.{transmit_all, view, IsAwaiting, receive-transmit_all}
use footscreen.Session.Write.{
  Link, sends, completes, Reach, here, next, resting, IsInOrder, Reach-IsInOrder,
}
use footscreen.Client.Reading
use footscreen.Client.Reading.{ClientReader}
use footscreen.Client.Delivery.{Reach-receive}
use footscreen.Tests.Data.{
  layout, layout-IsLayout, buffer, length-buffer, sample, sample-IsWellFormed, too_long,
}

abbrev session : Session
session = record { read_buffer = buffer; current_message = too_long; write_message_queue = [] }

abbrev reader : Reader
reader = record { session = session; pending = reading 6 read_header; received = [] }

reader-IsAwaiting : IsAwaiting layout reader
reader-IsAwaiting = record {
  awaits_header = refl;
  sized = record { read_buffer_length = length-buffer; content_length = length-buffer };
}

receive-transmit_all_example :
    (q : Reader) × (receive layout
        (2 * length (sample ∷ sample ∷ []))
        reader
        (transmit_all layout (sample ∷ sample ∷ []) ++ 9 ∷ [])
      ≡ some (q, 9 ∷ []))
    × (map view q.received ≡ map view reader.received ++ map view (sample ∷ sample ∷ []))
    × IsAwaiting layout q
receive-transmit_all_example =
    receive-transmit_all layout layout-IsLayout (sample ∷ sample ∷ []) reader (9 ∷ [])
      (sample-IsWellFormed, (sample-IsWellFormed, tt)) reader-IsAwaiting

-- A header that announces 600 bytes, and as many.
abbrev long_header : MessageHeader
long_header = record { message_id = 7; content_type = 2; content_length = 600 }

abbrev link : Link
link = record { session = session; writing = none; accepted = []; written = []; overlapped = false }

link-IsInOrder : IsInOrder layout link
link-IsInOrder = record { order = refl; alone = refl; status = resting refl refl }

-- One package is being written.
abbrev sending : Link
sending = record {
  session = record session { write_message_queue = sample ∷ [] };
  writing = some (sample, 6 + 2);
  accepted = sample ∷ [];
  written = [];
  overlapped = false;
}

link-Reach : Reach layout link sending
unfolding deliver
link-Reach = next here (sends sample)

Reach-IsInOrder_example : IsInOrder layout sending
Reach-IsInOrder_example = Reach-IsInOrder layout link-IsInOrder link-Reach

-- The sample has been written, and a second one is being written.
abbrev halfway : Link
halfway = record sending { accepted = sample ∷ sample ∷ []; written = sample ∷ [] }

halfway-Reach : Reach layout link halfway
unfolding deliver handle_write
halfway-Reach = next (next link-Reach (sends sample)) (completes sample (6 + 2) _ refl refl)

abbrev client_reader : ClientReader
client_reader = record {
  client = record {
    io_service = true;
    socket = true;
    is_connected = true;
    server_address = true;
    read_buffer = buffer;
    current_message = too_long;
    write_message_queue = [];
  };
  pending = reading 6 read_header;
  received = [];
}

Reach-receive_example :
    (q : ClientReader) × (Reading.receive layout
        (2 * length halfway.written)
        client_reader
        (transmit_all layout halfway.written ++ [])
      ≡ some (q, []))
    × (map view q.received ++ map view halfway.session.write_message_queue
        ≡ map view client_reader.received ++ map view halfway.accepted)
Reach-receive_example =
    Reach-receive layout layout-IsLayout link halfway client_reader link-IsInOrder halfway-Reach
      (sample-IsWellFormed, (sample-IsWellFormed, tt)) reader-IsAwaiting

abbrev stuck : Link
stuck = record sending { writing = none }

abbrev still_stuck : Link
still_stuck = record stuck {
  session = record session { write_message_queue = sample ∷ too_long ∷ [] };
  accepted = sample ∷ too_long ∷ [];
}

two_letters : All (λ (c : ℕ). c ≢ 0) (65 ∷ 66 ∷ [])
two_letters = ((λ e. absurd (omega arith)), ((λ e. absurd (omega arith)), tt))
