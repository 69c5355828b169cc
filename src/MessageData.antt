-- ===== src/MessageData.antt =====
-- uist-game/MessageData.h and MessageData.cpp: the network package, its header and its fixed
-- buffer. Bytes are numbers below 256; a call of `memcpy` that leaves an array is `none`.
pub mod Copy
pub mod Text
use footscreen.Base.{
  ℕ, ◌+◌, ◌≤◌, ◌<◌, ◌≡◌, ◌&&◌, Option, none, some, List, [], ◌∷◌, ◌++◌, length, take, drop, set,
  leb, ltb, ◌==◌, if◌then◌else◌, ◌>>=◌,
}

abbrev pub max_message_length : ℕ
max_message_length = 512

-- The reserved message identifiers.
abbrev pub message_id_none : ℕ
message_id_none = 0

abbrev pub message_id_all : ℕ
message_id_all = 1

abbrev pub message_id_event : ℕ
message_id_event = 2

abbrev pub message_id_first : ℕ
message_id_first = 3

-- The reserved network participants.
abbrev pub id_none : ℕ
id_none = 0

abbrev pub id_server : ℕ
id_server = 1

abbrev pub id_all_clients : ℕ
id_all_clients = 2

abbrev pub id_new_client : ℕ
id_new_client = 3

abbrev pub id_first_client : ℕ
id_first_client = 4

abbrev pub id_last_client : ℕ
id_last_client = 65535

pub record MessageHeader : Type 0 where
  pub message_id : ℕ
  pub content_type : ℕ
  pub content_length : ℕ

-- `network_server_session` is a pointer to a session, here its number, or null.
pub record MessageData : Type 0 where
  pub header : MessageHeader
  pub content : List ℕ
  pub network_server_session : Option ℕ

-- How the compiler lays a header out in memory.
pub record HeaderLayout : Type 0 where
  pub header_length : ℕ
  pub encode : MessageHeader → List ℕ
  pub decode : List ℕ → MessageHeader

-- The fields of a header are a `uint16_t`, a `uint8_t` and a `uint16_t`.
pub record IsHeader (h : MessageHeader) : Type 0 where
  pub message_id_lt : h.message_id < 65536
  pub content_type_lt : h.content_type < 256
  pub content_length_lt : h.content_length < 65536

-- A header is `header_length` bytes in memory, which fit the buffers, and copying them copies the
-- fields.
pub record IsLayout (l : HeaderLayout) : Type 0 where
  pub header_length_le : l.header_length ≤ max_message_length
  pub length-encode : (h : MessageHeader) → length (l.encode h) ≡ l.header_length
  pub decode-encode : (h : MessageHeader) → IsHeader h → l.decode (l.encode h) ≡ h

-- `memcpy(destination, source, n)` of two arrays.
unfoldable pub memcpy : ℕ → List ℕ → List ℕ → Option (List ℕ)
memcpy n source destination =
    if leb n (length source) && leb n (length destination)
    then some (take n source ++ drop n destination)
    else none

-- The constructor leaves the header and the buffer as memory had them.
unfoldable pub new_message_data : MessageHeader → List ℕ → MessageData
new_message_data garbage bytes = record {
  header = garbage;
  content = bytes;
  network_server_session = none;
}

unfoldable pub set_header : MessageHeader → MessageData → MessageData
set_header h m = record m { header = h }

unfoldable pub set_message_id : ℕ → MessageData → MessageData
set_message_id id m = record m { header = record m.header { message_id = id } }

unfoldable pub set_content_type : ℕ → MessageData → MessageData
set_content_type type m = record m { header = record m.header { content_type = type } }

unfoldable pub copy_header_from : HeaderLayout → List ℕ → MessageData → Option MessageData
unfolding memcpy
copy_header_from l source m = memcpy l.header_length source (l.encode m.header) >>= λ bytes.
    some (record m { header = l.decode bytes })

unfoldable pub copy_content_from : List ℕ → MessageData → Option MessageData
copy_content_from source m =
    memcpy m.header.content_length source m.content >>= λ bytes. some (record m { content = bytes })

unfoldable pub copy_content_from_n : List ℕ → ℕ → MessageData → Option MessageData
copy_content_from_n source n m =
    memcpy n source m.content >>= λ bytes. some (record m { content = bytes })

unfoldable pub copy_to : MessageData → List ℕ → Option (List ℕ)
copy_to m destination = memcpy m.header.content_length m.content destination

unfoldable pub set_network_server_session : Option ℕ → MessageData → MessageData
set_network_server_session session m = record m { network_server_session = session }

-- `strlen` of an array: `none` if no byte of it is zero.
unfoldable pub strlen : List ℕ → Option ℕ
strlen [] = none
strlen (c ∷ cs) = let rest = strlen cs in if c == 0 then some 0 else (rest >>= λ n. some (n + 1))

abbrev pub set_content_length : ℕ → MessageData → MessageData
set_content_length n m = record m { header = record m.header { content_length = n } }

-- `array[i] = c`.
unfoldable pub store : List ℕ → ℕ → ℕ → Option (List ℕ)
store array i c = if ltb i (length array) then some (set array i c) else none

-- The writes of `copyContentFromString`: the text, a zero behind it and the length.
unfoldable pub put_string : ℕ → List ℕ → MessageData → Option MessageData
unfolding memcpy store
put_string n source m = memcpy n source m.content >>= λ bytes.
    store bytes n 0 >>= λ ended. some (set_content_length (n + 1) (record m { content = ended }))

-- A text that is too long changes nothing (and is logged).
unfoldable pub copy_content_from_string : List ℕ → MessageData → Option MessageData
unfolding strlen put_string
copy_content_from_string source m =
    strlen source >>= λ n. if ltb max_message_length (n + 1) then some m else put_string n source m

-- What a receiver reads of a package: the header and the first `content_length` bytes.
abbrev pub payload : MessageData → List ℕ
payload m = take m.header.content_length m.content

-- The buffer is an array of 512 bytes, and the header's length stays inside it.
pub record IsWellFormed (m : MessageData) : Type 0 where
  pub is_header : IsHeader m.header
  pub length_content : length m.content ≡ max_message_length
  pub content_length_le : m.header.content_length ≤ max_message_length
