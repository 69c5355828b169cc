-- ===== src/MessageData/Copy.antt =====
-- The copies of uist-game/MessageData.cpp, and what they fault on.
use footscreen.Base.{
  ℕ, ◌≤◌, ◌<◌, ◌≡◌, refl, sym, ◌∙◌, none, some, List, ◌++◌, length, take, drop, append-nil,
  length-append, length-take, length-drop, take-append, take-length, drop-length, take-take, arith,
  le→leb,
}
use footscreen.MessageData.{
  MessageData, MessageHeader, HeaderLayout, IsLayout, IsHeader, memcpy, copy_header_from,
  copy_content_from, copy_to, payload, IsWellFormed, max_message_length, set_header,
}

-- A copy inside both arrays succeeds.
pub memcpy-fits :
    (n : ℕ) (source destination : List ℕ)
    → n ≤ length source
    → n ≤ length destination
    → memcpy n source destination ≡ some (take n source ++ drop n destination)
unfolding memcpy
memcpy-fits n source destination h k = rw (le→leb _ _ h, le→leb _ _ k)

-- A copy that leaves the destination is a fault.
pub memcpy_overflow :
    (n : ℕ) (source destination : List ℕ)
    → length destination < n
    → memcpy n source destination ≡ none
unfolding memcpy
memcpy_overflow n source destination h = ground arith

-- Any other copy is inside both arrays, replaces a prefix and keeps the length.
pub memcpy_inv :
    (n : ℕ) (source destination : List ℕ) {out : List ℕ}
    → memcpy n source destination ≡ some out
    → (n ≤ length source) × (n ≤ length destination) × (out ≡ take n source ++ drop n destination)
unfolding memcpy
memcpy_inv n source destination e = ground arith

pub take-memcpy :
    (n : ℕ) (source destination : List ℕ)
    → n ≤ length source
    → take n (take n source ++ drop n destination) ≡ take n source
take-memcpy n source destination h =
    take-append n (take n source) _ (omega (arith, length-take n source)) ∙ take-take n source

pub length-memcpy :
    (n : ℕ) (source destination : List ℕ)
    → n ≤ length source
    → n ≤ length destination
    → length (take n source ++ drop n destination) ≡ length destination
length-memcpy n source destination h k = omega (
  arith,
  length-append (take n source) (drop n destination),
  length-take n source,
  length-drop n destination,
)

-- A well-formed package copied from memory that is long enough carries that memory's first bytes,
-- and stays well-formed.
pub copy_content_from-payload :
    (source : List ℕ) (m : MessageData)
    → IsWellFormed m
    → m.header.content_length ≤ length source
    → (out : MessageData) × (copy_content_from source m ≡ some out)
      × (out.header ≡ m.header)
      × (payload out ≡ take m.header.content_length source)
      × IsWellFormed out
unfolding copy_content_from
copy_content_from-payload source m w h =
    let n = m.header.content_length in
    let room : n ≤ length m.content = omega (arith, w.length_content, w.content_length_le) in
    (
      record m { content = take n source ++ drop n m.content },
      rw (memcpy-fits n source m.content h room),
      refl,
      take-memcpy n source m.content h,
      record {
        is_header = w.is_header;
        length_content = length-memcpy n source m.content h room ∙ w.length_content;
        content_length_le = w.content_length_le;
      },
    )

-- A length beyond the 512 bytes of the buffer makes the copy leave it.
pub copy_content_from_overflow :
    (source : List ℕ) (m : MessageData)
    → length m.content ≡ max_message_length
    → max_message_length < m.header.content_length
    → copy_content_from source m ≡ none
unfolding copy_content_from
copy_content_from_overflow source m l h =
    rw (memcpy_overflow m.header.content_length source m.content (omega arith))

-- `copyTo` has no bound of its own: a package longer than its destination writes behind it.
pub copy_to_overflow :
    (m : MessageData) (destination : List ℕ)
    → length destination < m.header.content_length
    → copy_to m destination ≡ none
unfolding copy_to
copy_to_overflow m destination h = memcpy_overflow m.header.content_length m.content destination h

-- The header that a buffer starts with is read back.
pub copy_header_from-encode :
    (l : HeaderLayout) (h : MessageHeader) (rest : List ℕ) (m : MessageData)
    → IsLayout l
    → IsHeader h
    → copy_header_from l (l.encode h ++ rest) m ≡ some (set_header h m)
unfolding copy_header_from set_header
copy_header_from-encode l h rest m laws range =
    let source = l.encode h ++ rest in
    let long : l.header_length ≤ length source =
      omega (arith, length-append (l.encode h) rest, laws.length-encode h) in
    rw (
      memcpy-fits l.header_length source (l.encode m.header) long
          (omega (arith, laws.length-encode m.header)),
      take-append l.header_length (l.encode h) rest (omega (arith, laws.length-encode h)),
      take-length l.header_length (l.encode h) (sym (laws.length-encode h)),
      drop-length l.header_length (l.encode m.header) (sym (laws.length-encode m.header)),
      append-nil (l.encode h),
      laws.decode-encode h range,
    )
