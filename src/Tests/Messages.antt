-- ===== src/Tests/Messages.antt =====
-- Objects, their packages and their handlers.
use footscreen.Base.{
  ℕ, ◌+◌, ◌%◌, ◌≡◌, refl, true, not, ◌&&◌, Option, none, some, List, [], ◌∷◌, ◌++◌, any, keep,
  if◌then◌else◌, arith,
}
use footscreen.MessageData.{MessageData}
use footscreen.Actions.{Level, error}
use footscreen.Handlers.{MessageHandler, handle_message}
use footscreen.Handlers.Dispatch.{is_for, call_all, handle_message-call_all}
use footscreen.Message.{
  generate_message_id, destroy, package_of, update_data, synchronize, is_selected,
}
use footscreen.Message.Types.{IsCoherent, is_empty, send_packages, synchronize-send_packages}
use footscreen.Message.Transfer.{update_data-package_of, update_data_overflow}
use footscreen.Message.Identity.{destroy-generate_message_id}
use footscreen.Tests.Data.{
  buffer, length-buffer, header, sample, too_long, Pair, both, member, object, member-IsRegistered,
}

-- A callback is a number, and what it does is to note itself and the sender.
abbrev note : ℕ → MessageData → ℕ → List (ℕ × ℕ) → List (ℕ × ℕ)
note c m sender notes = notes ++ (c, sender) ∷ []

abbrev handler : ℕ → ℕ → ℕ → MessageHandler ℕ
handler type id c = record {
  message_type = type;
  message_id = id;
  message_handler_callback = some c;
}

-- For the sample's type and ID, for another type, and for all packages.
abbrev handlers : List (MessageHandler ℕ)
handlers = handler 2 7 100 ∷ handler 3 7 101 ∷ handler 1 1 102 ∷ []

handle_message-call_all_example : handle_message note handlers sample 4 [] ≡ (
  call_all note sample 4 (keep (is_for sample) handlers) [],
  if any (is_for sample) handlers then [] else error ∷ [],
)
handle_message-call_all_example = handle_message-call_all note sample 4 handlers []

object-IsCoherent : IsCoherent object
object-IsCoherent = (member-IsRegistered, tt)

update_data-package_of_example :
    (m : MessageData) × (out : Pair) × (package_of header buffer member (5, 6) ≡ some m)
    × (update_data m object (0, 0) ≡ some out)
    × (both.read out ≡ both.read (5, 6))
update_data-package_of_example =
    update_data-package_of header buffer object object [] [] member (5, 6) (0, 0) length-buffer refl
      tt member-IsRegistered

update_data_overflow_example : update_data too_long object (5, 6) ≡ none
update_data_overflow_example =
    update_data_overflow too_long object [] [] member (5, 6) refl tt refl (omega arith)

-- The network keeps what is sent, and counts the errors.
abbrev keeps : MessageData → List MessageData × ℕ → Option (List MessageData × ℕ)
keeps m (sent, errors) = some (sent ++ m ∷ [], errors)

abbrev counts : Level → List MessageData × ℕ → List MessageData × ℕ
counts level (sent, errors) = (sent, errors + 1)

synchronize-send_packages_example :
    synchronize keeps counts header buffer true 0 object (5, 6) ([], 0) ≡ (
      if true && not (is_empty object.registered_message_types)
      then send_packages keeps counts header buffer
          (keep (is_selected 0) object.registered_message_types)
          (5, 6)
          ([], 0)
      else some (counts error ([], 0)))
synchronize-send_packages_example =
    synchronize-send_packages keeps counts header buffer true 0 object (5, 6) ([], 0)

destroy-generate_message_id_example :
    let (m', hs', next') = generate_message_id 100 9 object handlers in
    (destroy m' hs' ≡ handlers) × (m'.message_id ≡ 9) × (next' ≡ (9 + 1) % 65536)
destroy-generate_message_id_example = destroy-generate_message_id 100 9 object handlers refl
