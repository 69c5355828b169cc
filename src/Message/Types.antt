-- ===== src/Message/Types.antt =====
-- The registered types of a message: which packages `synchronize` sends.
use footscreen.Base.{
  ℕ, ◌≤◌, ◌<◌, ◌≡◌, refl, Bool, true, false, not, ◌&&◌, Option, some, List, [], ◌∷◌, ◌==◌,
  if◌then◌else◌, ◌>>=◌, keep, arith, All, All-append, Bool-cases, Option-cases, inl, inr,
}
use footscreen.MessageData.{MessageHeader, MessageData, IsHeader, max_message_length}
use footscreen.Actions.{Level, error}
use footscreen.Handlers.{MessageHandler}
use footscreen.Message.{
  Region, IsRegion, RegisteredMessageType, Message, set_enabled, set_ids, register_message_type,
  enable_sending_message_type, disable_sending_message_type, set_message_id, package_of,
  is_selected, send_types, synchronize,
}

-- A type that was registered with the size of its member, which fits a package, under the ID of the
-- message.
pub record IsRegistered {D : Type 0} (id : ℕ) (t : RegisteredMessageType D) : Type 0 where
  pub is_header : IsHeader t.header
  pub is_region : IsRegion t.region
  pub content_length_eq : t.header.content_length ≡ t.region.size
  pub size_le : t.region.size ≤ max_message_length
  pub message_id_eq : t.header.message_id ≡ id

-- All types of a message carry its ID.
abbrev pub IsCoherent : {D : Type 0} → Message D → Type 0
IsCoherent m = All (IsRegistered m.message_id) m.registered_message_types

module _ {D : Type 0} where
  -- Registering a member of at most 512 bytes with its size keeps the types of a message coherent.
  pub register_message_type-IsCoherent :
      (type : ℕ) (p : Region D) (frequency : ℕ) (m : Message D)
      → IsRegion p
      → p.size ≤ max_message_length
      → type < 256
      → m.message_id < 65536
      → IsCoherent m
      → IsCoherent (register_message_type type p p.size frequency m)
  unfolding register_message_type
  register_message_type-IsCoherent type p frequency m region size range id c =
      All-append (IsRegistered m.message_id) m.registered_message_types _ c (
        record {
          is_header = record {
            message_id_lt = id;
            content_type_lt = range;
            content_length_lt = omega arith;
          };
          is_region = region;
          content_length_eq = refl;
          size_le = size;
          message_id_eq = refl;
        },
        tt,
      )

  set_enabled-All :
      (id type : ℕ) (on : Bool) (ts : List (RegisteredMessageType D))
      → All (IsRegistered id) ts
      → All (IsRegistered id) (set_enabled type on ts)
  unfolding set_enabled
  set_enabled-All id type on [] c = tt
  set_enabled-All id type on (t ∷ ts) c =
      let rest = set_enabled-All id type on ts c.1 in
      elim (Bool-cases (t.header.content_type == type)) [
        | inl hit ↦ rw hit (
          record {
            is_header = c.0.is_header;
            is_region = c.0.is_region;
            content_length_eq = c.0.content_length_eq;
            size_le = c.0.size_le;
            message_id_eq = c.0.message_id_eq;
          },
          rest,
        )
        | inr miss ↦ rw miss (c.0, rest)
      ]

  set_ids-All :
      (old id : ℕ) (ts : List (RegisteredMessageType D))
      → id < 65536
      → All (IsRegistered old) ts
      → All (IsRegistered id) (set_ids id ts)
  unfolding set_ids
  set_ids-All old id [] range c = tt
  set_ids-All old id (t ∷ ts) range c = (
    record {
      is_header = record {
        message_id_lt = range;
        content_type_lt = c.0.is_header.content_type_lt;
        content_length_lt = c.0.is_header.content_length_lt;
      };
      is_region = c.0.is_region;
      content_length_eq = c.0.content_length_eq;
      size_le = c.0.size_le;
      message_id_eq = refl;
    },
    set_ids-All old id ts range c.1,
  )

  -- A new ID of 16 bits reaches every registered type, so the types stay coherent; so do they when
  -- sending of a type is switched on or off.
  pub set_message_id-IsCoherent :
      {C : Type 0} (self : C) (id type : ℕ) (m : Message D) (hs : List (MessageHandler C))
      → id < 65536
      → IsCoherent m
      → IsCoherent (set_message_id self id m hs).0
        × IsCoherent (enable_sending_message_type type m)
        × IsCoherent (disable_sending_message_type type m)
  unfolding set_message_id enable_sending_message_type disable_sending_message_type
  set_message_id-IsCoherent self id type m hs range c = (
    set_ids-All m.message_id id m.registered_message_types range c,
    set_enabled-All m.message_id type true m.registered_message_types c,
    set_enabled-All m.message_id type false m.registered_message_types c,
  )

abbrev pub is_empty : {A : Type 0} → List A → Bool
is_empty [] = true
is_empty (x ∷ xs) = false

module _ {D N : Type 0} (send : MessageData → N → Option N) (report : Level → N → N)
    (garbage : MessageHeader) (bytes : List ℕ) where
  -- The packages of some types, sent one after the other.
  abbrev pub send_packages : List (RegisteredMessageType D) → D → N → Option N
  send_packages [] d n = some n
  send_packages (t ∷ ts) d n =
      package_of garbage bytes t d >>= (λ m. send m n) >>= send_packages ts d

  send_types-keep :
      (least : ℕ) (ts : List (RegisteredMessageType D)) (d : D) (n : N)
      → send_types send report garbage bytes least ts d n
        ≡ send_packages (keep (is_selected least) ts) d n
  unfolding send_types is_selected package_of
  send_types-keep least [] d n = refl
  send_types-keep least (t ∷ ts) d n =
      let sent : Option N = package_of garbage bytes t d >>= (λ m. send m n) in
      elim (Option-cases sent) [
        | inl e ↦ ground (arith, send_types-keep least ts d n)
        | inr (n', e) ↦ ground (arith, send_types-keep least ts d n, send_types-keep least ts d n')
      ]

  -- If the message has a registered type and its receiver can be reached, `synchronize` sends one
  -- package for each type that is enabled and has at least the frequency asked for, in the order of
  -- registration; otherwise it logs an error and sends nothing.
  pub synchronize-send_packages :
      (reachable : Bool) (least : ℕ) (m : Message D) (d : D) (n : N)
      → synchronize send report garbage bytes reachable least m d n ≡ (
          if reachable && not (is_empty m.registered_message_types)
          then send_packages (keep (is_selected least) m.registered_message_types) d n
          else some (report error n))
  unfolding synchronize
  synchronize-send_packages reachable least m d n =
      ground (arith, send_types-keep least m.registered_message_types d n)
