-- ===== src/Tests/Data.antt =====
-- Concrete layouts, packages and numbers.
use footscreen.Base.{
  ℕ, ◌+◌, ◌*◌, ◌/◌, ◌%◌, ◌≡◌, refl, true, false, not, none, some, List, [], ◌∷◌, length, get_elem?,
  replicate, length-replicate, arith,
}
use footscreen.Base.Int.{ℤ, pos, negsuc, pos_part, neg_part, ◌+ℤ◌, ◌-ℤ◌, ◌*ℤ◌, sub_ℕ, ltb_ℤ}
use footscreen.MessageData.{
  MessageHeader, MessageData, HeaderLayout, IsHeader, IsLayout, IsWellFormed,
}
use footscreen.Message.{Region, IsRegion, RegisteredMessageType, Message}
use footscreen.Message.Types.{IsRegistered}
use footscreen.Floats.{Floats, IsOrdered}

abbrev pub byte : ℕ → List ℕ → ℕ
byte k bytes = elim (get_elem? bytes k) [ none ↦ 0 | some b ↦ b ]

-- A little-endian machine that pads the type.
abbrev pub layout : HeaderLayout
layout = record {
  header_length = 6;
  encode = λ h.
      h.message_id % 256
      ∷ h.message_id / 256
      ∷ h.content_type
      ∷ 0
      ∷ h.content_length % 256
      ∷ h.content_length / 256
      ∷ [];
  decode = λ bytes. record {
    message_id = byte 0 bytes + 256 * byte 1 bytes;
    content_type = byte 2 bytes;
    content_length = byte 4 bytes + 256 * byte 5 bytes;
  };
}

whole : (n : ℕ) → n % 256 + 256 * (n / 256) ≡ n
whole n = omega arith

pub layout-IsLayout : IsLayout layout
layout-IsLayout = record {
  header_length_le = omega arith;
  length-encode = λ h. refl;
  decode-encode = λ h range i. record {
    message_id = whole h.message_id i;
    content_type = h.content_type;
    content_length = whole h.content_length i;
  };
}

abbrev pub buffer : List ℕ
buffer = replicate 512 0

abbrev pub header : MessageHeader
header = record { message_id = 7; content_type = 2; content_length = 2 }

pub header-IsHeader : IsHeader header
header-IsHeader = record {
  message_id_lt = omega arith;
  content_type_lt = omega arith;
  content_length_lt = omega arith;
}

abbrev pub sample : MessageData
sample = record {
  header = header;
  content = 10 ∷ 20 ∷ replicate 510 0;
  network_server_session = none;
}

pub sample-IsWellFormed : IsWellFormed sample
sample-IsWellFormed = record {
  is_header = header-IsHeader;
  length_content = omega (arith, length-replicate {A = ℕ} 510 0);
  content_length_le = omega arith;
}

pub length-buffer : length buffer ≡ 512
length-buffer = length-replicate {A = ℕ} 512 0

-- An object of two bytes, which are one member.
abbrev pub Pair : Type 0
Pair = ℕ × ℕ

abbrev pub bytes_of : Pair → List ℕ
bytes_of (a, b) = a ∷ b ∷ []

abbrev pub both : Region Pair
both = record { size = 2; read = bytes_of; write = λ bytes d. (byte 0 bytes, byte 1 bytes) }

read-write : (bytes : List ℕ) → length bytes ≡ 2 → bytes_of (byte 0 bytes, byte 1 bytes) ≡ bytes
read-write [] h = absurd (omega arith)
read-write (a ∷ []) h = absurd (omega arith)
read-write (a ∷ b ∷ []) h = refl
read-write (a ∷ b ∷ c ∷ rest) h = absurd (omega arith)

pub both-IsRegion : IsRegion both
both-IsRegion = record { length-read = λ d. refl; read-write = λ bytes d h. read-write bytes h }

abbrev pub member : RegisteredMessageType Pair
member = record { is_sending_enabled = true; header = header; region = both; update_frequency = 3 }

abbrev pub object : Message Pair
object = record { is_attached = true; registered_message_types = member ∷ []; message_id = 7 }

pub member-IsRegistered : IsRegistered 7 member
member-IsRegistered = record {
  is_header = header-IsHeader;
  is_region = both-IsRegion;
  content_length_eq = refl;
  size_le = omega arith;
  message_id_eq = refl;
}

-- A package whose header announces more than the buffer holds.
abbrev pub too_long : MessageData
too_long = record {
  header = record { message_id = 7; content_type = 2; content_length = 600 };
  content = buffer;
  network_server_session = none;
}

abbrev pub magnitude : ℤ → ℤ
magnitude a = pos (pos_part a + neg_part a)

-- Whole numbers in place of the machine's.
abbrev pub whole_numbers : Floats ℤ ℤ
whole_numbers = record {
  lit = pos;
  add = ◌+ℤ◌;
  sub = ◌-ℤ◌;
  mul = ◌*ℤ◌;
  div = λ a b. sub_ℕ (pos_part a / pos_part b) (neg_part a / pos_part b);
  neg = λ a. sub_ℕ (neg_part a) (pos_part a);
  fabs = magnitude;
  cos = λ a. pos 1;
  sin = λ a. pos 0;
  lt = ltb_ℤ;
  le = λ a b. not (ltb_ℤ b a);
  truncate = λ a. a;
  of_int = λ a. a;
  widen = λ a. a;
  narrow = λ a. a;
  d_lit = pos;
  d_minus_one = negsuc 0;
  d_six_fifths = pos 1;
  d_mul = ◌*ℤ◌;
  d_div = λ a b. sub_ℕ (pos_part a / pos_part b) (neg_part a / pos_part b);
  d_lt = ltb_ℤ;
  norm_point = λ a b. magnitude a +ℤ magnitude b;
  norm_float = λ a b. magnitude a +ℤ magnitude b;
  dot = λ a b c d. a *ℤ c +ℤ b *ℤ d;
}

pub lt_irrefl : (a : ℤ) → ltb_ℤ a a ≡ false
lt_irrefl a = ground arith

pub lt_trans : (a b c : ℤ) → ltb_ℤ a b ≡ true → ltb_ℤ b c ≡ true → ltb_ℤ a c ≡ true
lt_trans a b c h k = ground arith

lt_asymm : (a b : ℤ) → ltb_ℤ a b ≡ true → ltb_ℤ b a ≡ false
lt_asymm a b h = ground arith

sub_nonpos : (a b : ℤ) → ltb_ℤ a b ≡ true → not (ltb_ℤ (pos 0) (a -ℤ b)) ≡ true
unfolding ◌-ℤ◌
sub_nonpos a b h = ground arith

pub whole_numbers-IsOrdered : IsOrdered whole_numbers
unfolding ◌-ℤ◌
whole_numbers-IsOrdered = record {
  lt_irrefl = lt_irrefl;
  lt_asymm = lt_asymm;
  sub_nonpos = sub_nonpos;
  walls_lt = refl;
}
