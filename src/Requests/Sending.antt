-- ===== src/Requests/Sending.antt =====
-- A request that is synchronised is one package, from which the other side reads the same request.
use footscreen.Base.{
  ℕ, ◌≤◌, ◌<◌, ◌≡◌, refl, sym, ◌∙◌, ap, true, false, Option, none, some, ◌>>=◌, List, [], length,
  arith,
}
use footscreen.MessageData.{
  MessageHeader, MessageData, IsWellFormed, max_message_length, payload, message_id_event,
  set_network_server_session,
}
use footscreen.Actions.{Level}
use footscreen.Handlers.{MessageHandler}
use footscreen.Message.{
  Region, IsRegion, RegisteredMessageType, synchronize, send_types, set_message_id, set_ids,
  register_message_type, new_message, update_frequency_once,
}
use footscreen.Message.Types.{IsRegistered}
use footscreen.Message.Transfer.{package_of-payload}
use footscreen.Message.Creation.{IsFor}
use footscreen.Requests.{new_request, read_request}
use footscreen.Requests.Reading.{read_request-payload}

-- The bytes of a member tell its value.
abbrev pub IsFaithful : {D : Type 0} → Region D → Type 0
IsFaithful {D} region = (d e : D) → region.read d ≡ region.read e → d ≡ e

-- A region that a request of some type can carry.
pub record IsCarried {D : Type 0} (type : ℕ) (region : Region D) : Type 0 where
  pub is_region : IsRegion region
  pub is_faithful : IsFaithful region
  pub size_le : region.size ≤ max_message_length
  pub type_lt : type < 256

>>=-some : {A : Type 0} (o : Option A) → (o >>= λ x. some x) ≡ o
>>=-some none = refl
>>=-some (some a) = refl

module _ {C D N : Type 0} (send : MessageData → N → Option N) (report : Level → N → N)
    (garbage : MessageHeader) (bytes : List ℕ) (size : length bytes ≡ max_message_length) (self : C)
    (type : ℕ) (region : Region D) (carried : IsCarried type region) where
  pub synchronize-new_request :
      (initial d : D) (hs : List (MessageHandler C)) (n : N)
      → (m : MessageData) × (synchronize send report garbage bytes true update_frequency_once
            (new_request self true type region initial hs).0.message
            d
            n
          ≡ send m n)
        × (m.header ≡ record {
          message_id = message_id_event;
          content_type = type;
          content_length = region.size;
        })
        × (payload m ≡ region.read d)
        × IsWellFormed m
  unfolding synchronize send_types new_request set_message_id set_ids register_message_type
      new_message
  synchronize-new_request initial d hs n =
      let t : RegisteredMessageType D = record {
        is_sending_enabled = true;
        header = record {
          message_id = message_id_event;
          content_type = type;
          content_length = region.size;
        };
        region = region;
        update_frequency = update_frequency_once;
      } in
      let known : IsRegistered message_id_event t = record {
        is_header = record {
          message_id_lt = omega arith;
          content_type_lt = carried.type_lt;
          content_length_lt = omega (arith, carried.size_le);
        };
        is_region = carried.is_region;
        content_length_eq = refl;
        size_le = carried.size_le;
        message_id_eq = refl;
      } in
      let (m, e, header, body, formed) =
        package_of-payload garbage bytes message_id_event t d size known in
      (m, rw e (>>=-some (send m n)), header, body, formed)

module _ {C D : Type 0} (self : C) (type : ℕ) (region : Region D)
    (carried : IsCarried type region) where
  -- What arrives is what was sent, also with a session attached.
  pub read_request-sent :
      (initial d : D) (m : MessageData) (session : Option ℕ)
      → m.header ≡ record {
        message_id = message_id_event;
        content_type = type;
        content_length = region.size;
      }
      → payload m ≡ region.read d
      → IsWellFormed m
      → read_request self
          (set_network_server_session session m)
          (new_request self false type region initial [])
        ≡ some d
  unfolding set_network_server_session
  read_request-sent initial d m session header body formed =
      let arrived : MessageData = record m { network_server_session = session } in
      let v : IsFor type region arrived = record {
        is_well_formed = record {
          is_header = formed.is_header;
          length_content = formed.length_content;
          content_length_le = formed.content_length_le;
        };
        is_region = carried.is_region;
        size_le = carried.size_le;
        content_type_eq = sym (ap (λ (h : MessageHeader). h.content_type) header);
        content_length_eq = ap (λ (h : MessageHeader). h.content_length) header;
      } in
      let (e, read, same) = read_request-payload self type region initial arrived v in
      read ∙ ap some (carried.is_faithful e d (same ∙ body))
