-- ===== src/Message/Creation.antt =====
-- `createFromData` of uist-game/Message.cpp for an object with one member.
use footscreen.Base.{ℕ, ◌≤◌, ◌≡◌, refl, sym, ◌∙◌, some, List, [], ◌∷◌}
use footscreen.MessageData.{MessageData, IsWellFormed, payload, max_message_length}
use footscreen.Handlers.{MessageHandler}
use footscreen.Message.{
  Message, Region, IsRegion, RegisteredMessageType, create_from_data, set_message_id, set_ids,
  update_data, update_types,
}
use footscreen.Message.Types.{IsRegistered}
use footscreen.Message.Transfer.{write_region-payload, update_types-hit}

-- A package that a member with a content type can be read from.
pub record IsFor {D : Type 0} (type : ℕ) (region : Region D) (m : MessageData) : Type 0 where
  pub is_well_formed : IsWellFormed m
  pub is_region : IsRegion region
  pub size_le : region.size ≤ max_message_length
  pub content_type_eq : type ≡ m.header.content_type
  pub content_length_eq : m.header.content_length ≡ region.size

module _ {C D : Type 0} (self : C) (incoming : MessageData) (m : Message D)
    (t : RegisteredMessageType D) where
  -- The object takes the ID of the package, and its member the bytes.
  pub create_from_data-payload :
      (hs : List (MessageHandler C)) (initial : D)
      → m.registered_message_types ≡ t ∷ []
      → t.header.content_length ≡ t.region.size
      → IsFor t.header.content_type t.region incoming
      → (d : D) × (create_from_data self incoming m hs initial
          ≡ some (
            (set_message_id self incoming.header.message_id m hs).0,
            (set_message_id self incoming.header.message_id m hs).1,
            d,
          ))
        × (t.region.read d ≡ payload incoming)
  unfolding create_from_data set_message_id set_ids update_data
  create_from_data-payload hs initial only sized v =
      let w = v.is_well_formed in
      let named : RegisteredMessageType D = record t {
        header = record t.header { message_id = incoming.header.message_id };
      } in
      let known : IsRegistered incoming.header.message_id named = record {
        is_header = record {
          message_id_lt = w.is_header.message_id_lt;
          content_type_lt = rw v.content_type_eq w.is_header.content_type_lt;
          content_length_lt = rw (sized ∙ sym v.content_length_eq) w.is_header.content_length_lt;
        };
        is_region = v.is_region;
        content_length_eq = sized;
        size_le = v.size_le;
        message_id_eq = refl;
      } in
      let (d, wrote, bytes) =
        write_region-payload incoming incoming.header.message_id named initial w known
          v.content_length_eq in
      let e : update_types incoming (named ∷ []) initial ≡ some d =
        update_types-hit incoming named [] initial v.content_type_eq ∙ wrote in
      (d, rw only (rw e refl), bytes)
