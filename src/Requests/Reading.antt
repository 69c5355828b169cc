-- ===== src/Requests/Reading.antt =====
-- A request that arrives carries the bytes that were sent.
use footscreen.Base.{ℕ, ◌≡◌, refl, false, true, some, []}
use footscreen.MessageData.{MessageData, payload}
use footscreen.Message.{Region, set_message_id, set_ids, register_message_type, new_message}
use footscreen.Message.Creation.{IsFor, create_from_data-payload}
use footscreen.Requests.{new_request, read_request}

module _ {C D : Type 0} (self : C) (type : ℕ) (region : Region D) where
  pub read_request-payload :
      (initial : D) (m : MessageData)
      → IsFor type region m
      → (d : D) × (read_request self m (new_request self false type region initial []) ≡ some d)
        × (region.read d ≡ payload m)
  unfolding read_request new_request set_message_id set_ids register_message_type new_message
  read_request-payload initial m v =
      let (r, hs) = new_request self false type region initial [] in
      let (d, e, bytes) =
        create_from_data-payload self m r.message
          (record {
            is_sending_enabled = true;
            header = record { message_id = 2; content_type = type; content_length = region.size };
            region = region;
            update_frequency = 0;
          })
          hs initial refl refl v in
      (d, rw e refl, bytes)
