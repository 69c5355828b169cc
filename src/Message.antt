-- ===== src/Message.antt =====
-- uist-game/Message.h and Message.cpp: an object that is synchronised over the network. `D` is the
-- data of the object, `C` the type of callbacks. The mutex and the signal `onUpdate`, which
-- nothing is connected to, have no state here.
pub mod Types
pub mod Identity
pub mod Transfer
pub mod Creation
use footscreen.Base.{
  ℕ, ◌+◌, ◌%◌, ◌≤◌, ◌≡◌, Bool, true, false, not, ◌&&◌, ◌||◌, Option, none, some, List, [], ◌∷◌,
  ◌++◌, length, ltb, leb, ◌==◌, if◌then◌else◌, ◌>>=◌,
}
use footscreen.MessageData.{
  MessageHeader, MessageData, message_id_none, message_id_first, new_message_data, set_header,
  copy_content_from, copy_to,
}
use footscreen.Handlers.{
  MessageHandler, message_all_types, add_message_handler, remove_all_message_handlers,
}
use footscreen.Actions.{Level, error}

abbrev pub update_frequency_once : ℕ
update_frequency_once = 0

abbrev pub update_frequency_on_demand : ℕ
update_frequency_on_demand = 1

abbrev pub update_frequency_on_change : ℕ
update_frequency_on_change = 2

abbrev pub update_frequency_always : ℕ
update_frequency_always = 3

-- A pointer to a member of the object: the bytes that stand there, read and written whole.
pub record Region (D : Type 0) : Type 0 where
  pub size : ℕ
  pub read : D → List ℕ
  pub write : List ℕ → D → D

-- A member has a fixed size, and holds what is written to it.
pub record IsRegion {D : Type 0} (p : Region D) : Type 0 where
  pub length-read : (d : D) → length (p.read d) ≡ p.size
  pub read-write :
      (bytes : List ℕ) (d : D) → length bytes ≡ p.size → p.read (p.write bytes d) ≡ bytes

pub record RegisteredMessageType (D : Type 0) : Type 0 where
  pub is_sending_enabled : Bool
  pub header : MessageHeader
  pub region : Region D
  pub update_frequency : ℕ

-- `is_attached` says that the pointer to the network interface is not null.
pub record Message (D : Type 0) : Type 0 where
  pub is_attached : Bool
  pub registered_message_types : List (RegisteredMessageType D)
  pub message_id : ℕ

module _ {D : Type 0} where
  unfoldable pub new_message : Bool → Message D
  new_message attached = record {
    is_attached = attached;
    registered_message_types = [];
    message_id = message_id_none;
  }

  unfoldable pub register_message_type : ℕ → Region D → ℕ → ℕ → Message D → Message D
  register_message_type type region size frequency m = record m {
    registered_message_types =
        m.registered_message_types
        ++ record {
          is_sending_enabled = true;
          header = record { message_id = m.message_id; content_type = type; content_length = size };
          region = region;
          update_frequency = frequency;
        }
          ∷ [];
  }

  -- The loops over the registered types that write one field of some of them.
  unfoldable pub set_enabled :
      ℕ → Bool → List (RegisteredMessageType D) → List (RegisteredMessageType D)
  set_enabled type on [] = []
  set_enabled type on (t ∷ ts) =
      (if t.header.content_type == type then record t { is_sending_enabled = on } else t)
      ∷ set_enabled type on ts

  unfoldable pub set_ids : ℕ → List (RegisteredMessageType D) → List (RegisteredMessageType D)
  set_ids id [] = []
  set_ids id (t ∷ ts) = record t { header = record t.header { message_id = id } } ∷ set_ids id ts

  unfoldable pub enable_sending_message_type : ℕ → Message D → Message D
  unfolding set_enabled
  enable_sending_message_type type m = record m {
    registered_message_types = set_enabled type true m.registered_message_types;
  }

  unfoldable pub disable_sending_message_type : ℕ → Message D → Message D
  unfolding set_enabled
  disable_sending_message_type type m = record m {
    registered_message_types = set_enabled type false m.registered_message_types;
  }

  -- `self` is the callback that is bound to this object's `updateData`.
  unfoldable pub set_message_id :
      {C : Type 0}
      → C
      → ℕ
      → Message D
      → List (MessageHandler C)
      → Message D × List (MessageHandler C)
  unfolding set_ids
  set_message_id self id m hs = (
    record m { message_id = id; registered_message_types = set_ids id m.registered_message_types },
    if m.is_attached && leb message_id_first id
        then add_message_handler message_all_types id self hs
        else hs,
  )

  -- `next` is the static `s_nextMessageID`, a `uint16_t`.
  unfoldable pub generate_message_id :
      {C : Type 0}
      → C
      → ℕ
      → Message D
      → List (MessageHandler C)
      → Message D × List (MessageHandler C) × ℕ
  unfolding set_message_id
  generate_message_id self next m hs =
      let (m', hs') = set_message_id self next m hs in (m', hs', (next + 1) % 65536)

  -- The destructor.
  unfoldable pub destroy :
      {C : Type 0} → Message D → List (MessageHandler C) → List (MessageHandler C)
  destroy m hs =
      if m.is_attached && leb message_id_first m.message_id
      then remove_all_message_handlers m.message_id hs
      else hs

  -- `copyTo` writes through the pointer; beyond the member it is a fault.
  unfoldable pub write_region : MessageData → Region D → D → Option D
  write_region incoming p d = copy_to incoming (p.read d) >>= λ bytes. some (p.write bytes d)

  unfoldable pub update_types : MessageData → List (RegisteredMessageType D) → D → Option D
  unfolding write_region
  update_types incoming [] d = some d
  update_types incoming (t ∷ ts) d =
      if t.header.content_type == incoming.header.content_type
      then write_region incoming t.region d
      else update_types incoming ts d

  unfoldable pub update_data : MessageData → Message D → D → Option D
  unfolding update_types
  update_data incoming m d = update_types incoming m.registered_message_types d

  unfoldable pub create_from_data :
      {C : Type 0}
      → C
      → MessageData
      → Message D
      → List (MessageHandler C)
      → D
      → Option (Message D × List (MessageHandler C) × D)
  unfolding set_message_id update_data
  create_from_data self incoming m hs d =
      let (m', hs') = set_message_id self incoming.header.message_id m hs in
      update_data incoming m' d >>= λ d'. some (m', hs', d')

module _ {D : Type 0} where
  -- `garbage` and `bytes` are what memory held where the new package stands.
  unfoldable pub package_of :
      MessageHeader → List ℕ → RegisteredMessageType D → D → Option MessageData
  package_of garbage bytes t d =
      copy_content_from (t.region.read d) (set_header t.header (new_message_data garbage bytes))

  unfoldable pub is_selected : ℕ → RegisteredMessageType D → Bool
  is_selected least t = not (ltb t.update_frequency least) && t.is_sending_enabled

-- The network that packages are sent to: its state is `N`, `send` is the call on the interface or
-- the session with the receiver filled in, `report` is a call of the logger.
module _ {D N : Type 0} (send : MessageData → N → Option N) (report : Level → N → N)
    (garbage : MessageHeader) (bytes : List ℕ) where
  unfoldable pub send_types : ℕ → List (RegisteredMessageType D) → D → N → Option N
  unfolding package_of
  send_types least [] d n = some n
  send_types least (t ∷ ts) d n =
      let sent = package_of garbage bytes t d >>= (λ m. send m n) in
      if ltb t.update_frequency least
      then send_types least ts d n
      else if not t.is_sending_enabled
      then send_types least ts d n
      else (sent >>= send_types least ts d)

  -- `reachable` says that the pointer to the interface, or to the session, is not null.
  unfoldable pub synchronize : Bool → ℕ → Message D → D → N → Option N
  unfolding send_types
  synchronize reachable least m d n = elim m.registered_message_types [
    | [] ↦ some (report error n)
    | t ∷ ts ↦ if not reachable then some (report error n) else send_types least (t ∷ ts) d n
  ]

-- The overload for a list of receivers.
unfoldable pub synchronize_all :
    {D N : Type 0}
    → (ℕ → MessageData → N → Option N)
    → (Level → N → N)
    → MessageHeader
    → List ℕ
    → List ℕ
    → ℕ
    → Message D
    → D
    → N
    → Option N
unfolding synchronize
synchronize_all send report garbage bytes [] least m d n = some n
synchronize_all send report garbage bytes (id ∷ ids) least m d n =
    synchronize (send id) report garbage bytes m.is_attached least m d n
    >>= synchronize_all send report garbage bytes ids least m d
