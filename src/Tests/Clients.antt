-- ===== src/Tests/Clients.antt =====
-- A client between two connections.
use footscreen.Base.{◌≡◌, refl, true, false, none, [], ◌∷◌}
use footscreen.Client.{NetworkClient, deliver, load}
use footscreen.Client.Stall.{
  Line, after, loads, Reach, here, next, IsStalled, Reach-deliver_disconnected,
}
use footscreen.Tests.Data.{layout, buffer, sample, too_long}

abbrev client : NetworkClient
client = record {
  io_service = false;
  socket = false;
  is_connected = false;
  server_address = true;
  read_buffer = buffer;
  current_message = too_long;
  write_message_queue = [];
}

abbrev line : Line
line = record { client = client; writing = none; written = [] }

abbrev queued : Line
queued = record line { client = record client { write_message_queue = sample ∷ [] } }

abbrev loaded : Line
loaded = record queued {
  client = record client { io_service = true; socket = true; write_message_queue = sample ∷ [] };
}

loading : Reach layout (after (deliver layout sample client) line) loaded
unfolding deliver load
loading = next here loads

Reach-deliver_disconnected_example : IsStalled loaded × (loaded.written ≡ [])
Reach-deliver_disconnected_example =
    Reach-deliver_disconnected layout sample line refl refl refl loading
