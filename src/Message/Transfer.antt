-- ===== src/Message/Transfer.antt =====
-- A package carries the data of one object into another: `synchronize` and then `updateData` of
-- uist-game/Message.cpp.
use footscreen.Base.{
  ℕ, ◌<◌, ◌≡◌, ◌≢◌, refl, sym, ap, ◌∙◌, none, some, List, [], ◌∷◌, ◌++◌, length, length-take,
  take-length, drop-length, append-nil, arith, All,
}
use footscreen.MessageData.{
  MessageHeader, MessageData, IsWellFormed, new_message_data, set_header, copy_to,
  max_message_length, payload,
}
use footscreen.MessageData.Copy.{memcpy-fits, memcpy_overflow, copy_content_from-payload}
use footscreen.Message.{
  Region, RegisteredMessageType, Message, package_of, write_region, update_types, update_data,
}
use footscreen.Message.Types.{IsRegistered}

module _ {D : Type 0} where
  -- A registered type always yields a well-formed package, with its header and all the bytes of its
  -- member, whatever memory held before.
  pub package_of-payload :
      (garbage : MessageHeader) (bytes : List ℕ) (id : ℕ) (t : RegisteredMessageType D) (d : D)
      → length bytes ≡ max_message_length
      → IsRegistered id t
      → (m : MessageData) × (package_of garbage bytes t d ≡ some m)
        × (m.header ≡ t.header)
        × (payload m ≡ t.region.read d)
        × IsWellFormed m
  unfolding package_of set_header new_message_data
  package_of-payload garbage bytes id t d size c =
      let source = t.region.read d in
      let n : t.header.content_length ≡ length source =
        c.content_length_eq ∙ sym (c.is_region.length-read d) in
      let fresh : MessageData = record {
        header = t.header;
        content = bytes;
        network_server_session = none;
      } in
      let (m, e, h, p, w) =
        copy_content_from-payload source fresh
          (record {
            is_header = c.is_header;
            length_content = size;
            content_length_le = omega (arith, c.content_length_eq, c.size_le);
          })
          (omega arith) in
      (m, e, h, p ∙ take-length t.header.content_length source n, w)

  -- The bytes of a package become those of a member of the same size.
  pub write_region-payload :
      (m : MessageData) (id : ℕ) (t : RegisteredMessageType D) (d : D)
      → IsWellFormed m
      → IsRegistered id t
      → m.header.content_length ≡ t.region.size
      → (e : D) × (write_region m t.region d ≡ some e) × (t.region.read e ≡ payload m)
  unfolding write_region copy_to
  write_region-payload m id t d w c same =
      let n = m.header.content_length in
      let old = t.region.read d in
      let whole : n ≡ length old = same ∙ sym (c.is_region.length-read d) in
      let size : length (payload m) ≡ t.region.size =
        omega (arith, length-take n m.content, w.length_content, w.content_length_le) in
      (
        t.region.write (payload m) d,
        rw
            (memcpy-fits n m.content old (omega (arith, w.length_content, w.content_length_le))
              (omega arith))
            (rw (drop-length n old whole) (rw (append-nil (payload m)) refl)),
        c.is_region.read-write (payload m) d size,
      )

  update_types-skip :
      (m : MessageData) (before rest : List (RegisteredMessageType D)) (d : D)
      → All (λ u. u.header.content_type ≢ m.header.content_type) before
      → update_types m (before ++ rest) d ≡ update_types m rest d
  unfolding update_types
  update_types-skip m [] rest d other = refl
  update_types-skip m (u ∷ before) rest d other =
      ground (arith, update_types-skip m before rest d other.1)

  pub update_types-hit :
      (m : MessageData) (t : RegisteredMessageType D) (after : List (RegisteredMessageType D))
      (d : D)
      → t.header.content_type ≡ m.header.content_type
      → update_types m (t ∷ after) d ≡ write_region m t.region d
  unfolding update_types
  update_types-hit m t after d hit = ground arith

  write_region_overflow :
      (m : MessageData) (p : Region D) (d : D)
      → length (p.read d) < m.header.content_length
      → write_region m p d ≡ none
  unfolding write_region copy_to
  write_region_overflow m p d long =
      rw (memcpy_overflow m.header.content_length m.content (p.read d) long)

  -- A member that one object sends is the member of any other object that receives the package: a
  -- type registered alike on both sides, and with no earlier type of the same content type, is
  -- packed from `d`, and `updateData` then leaves `e` with the same bytes in that member.
  pub update_data-package_of :
      (garbage : MessageHeader) (bytes : List ℕ) (a b : Message D)
      (before after : List (RegisteredMessageType D)) (t : RegisteredMessageType D) (d e : D)
      → length bytes ≡ max_message_length
      → b.registered_message_types ≡ before ++ t ∷ after
      → All (λ u. u.header.content_type ≢ t.header.content_type) before
      → IsRegistered a.message_id t
      → (m : MessageData) × (out : D) × (package_of garbage bytes t d ≡ some m)
        × (update_data m b e ≡ some out)
        × (t.region.read out ≡ t.region.read d)
  unfolding update_data
  update_data-package_of garbage bytes a b before after t d e size types first c =
      let (m, packed, head, body, w) = package_of-payload garbage bytes a.message_id t d size c in
      let (out, wrote, bytes') =
        write_region-payload m a.message_id t e w c
          (ap (λ (h : MessageHeader). h.content_length) head ∙ c.content_length_eq) in
      (
        m,
        out,
        packed,
        rw types (
            update_types-skip m before (t ∷ after) e
              (rw (ap (λ (h : MessageHeader). h.content_type) head) first)
            ∙ update_types-hit m t after e (sym (ap (λ (h : MessageHeader). h.content_type) head))
            ∙ wrote),
        bytes' ∙ body,
      )

  -- The receiver does not compare the length with its member: a package that announces more bytes
  -- than the member of its content type has writes behind that member.
  pub update_data_overflow :
      (m : MessageData) (b : Message D) (before after : List (RegisteredMessageType D))
      (t : RegisteredMessageType D) (d : D)
      → b.registered_message_types ≡ before ++ t ∷ after
      → All (λ u. u.header.content_type ≢ m.header.content_type) before
      → t.header.content_type ≡ m.header.content_type
      → length (t.region.read d) < m.header.content_length
      → update_data m b d ≡ none
  unfolding update_data
  update_data_overflow m b before after t d types first hit long = rw types (
      update_types-skip m before (t ∷ after) d first
      ∙ update_types-hit m t after d hit
      ∙ write_region_overflow m t.region d long)
