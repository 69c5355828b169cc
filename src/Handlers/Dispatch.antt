-- ===== src/Handlers/Dispatch.antt =====
-- What `GameNetworkInterface::handleMessage` does, and that removing the handlers of one message
-- leaves the others alone.
use footscreen.Base.{
  ℕ, ◌≡◌, ◌≢◌, refl, Bool, true, false, ◌||◌, List, [], ◌∷◌, ◌==◌, if◌then◌else◌, keep, any, arith,
}
use footscreen.MessageData.{MessageData, message_id_all}
use footscreen.Actions.{error}
use footscreen.Handlers.{
  MessageHandler, handles, add_message_handler, remove_all_message_handlers, call, handle,
  handle_loop, handle_message,
}

-- Whether a handler is for a package.
abbrev pub is_for : {C : Type 0} → MessageData → MessageHandler C → Bool
is_for m h = handles h m.header.content_type m.header.message_id

module _ {C S : Type 0} (run : C → MessageData → ℕ → S → S) (m : MessageData) (sender : ℕ) where
  -- The callbacks of some handlers, one after the other.
  abbrev pub call_all : List (MessageHandler C) → S → S
  call_all [] s = s
  call_all (h ∷ hs) s = call_all hs (call run h.message_handler_callback m sender s)

  handle_loop-call_all :
      (hs : List (MessageHandler C)) (found : Bool) (s : S)
      → handle_loop run hs found m sender s
        ≡ (call_all (keep (is_for m) hs) s, if found || any (is_for m) hs then [] else error ∷ [])
  unfolding handle_loop handle
  handle_loop-call_all [] true s = refl
  handle_loop-call_all [] false s = refl
  handle_loop-call_all (h ∷ hs) found s = ground (
    arith,
    handle_loop-call_all hs true (call run h.message_handler_callback m sender s),
    handle_loop-call_all hs found s,
  )

  -- An incoming package runs the callbacks of exactly the handlers that match its type and ID, in
  -- the order in which they were added, and an error is logged exactly if there is none.
  pub handle_message-call_all :
      (hs : List (MessageHandler C)) (s : S)
      → handle_message run hs m sender s
        ≡ (call_all (keep (is_for m) hs) s, if any (is_for m) hs then [] else error ∷ [])
  unfolding handle_message
  handle_message-call_all hs s = handle_loop-call_all hs false s

module _ {C : Type 0} where
  -- Removing the handlers of a message ID undoes the addition of one, if the ID had none.
  pub remove-add_message_handler :
      (type id : ℕ) (c : C) (hs : List (MessageHandler C))
      → any (λ h. h.message_id == id) hs ≡ false
      → remove_all_message_handlers id (add_message_handler type id c hs) ≡ hs
  unfolding remove_all_message_handlers add_message_handler
  remove-add_message_handler type id c [] fresh = ground arith
  remove-add_message_handler type id c (h ∷ hs) fresh =
      ground (arith, remove-add_message_handler type id c hs)

  -- A package of another ID meets the same handlers after the removal.
  pub keep-remove_all_message_handlers :
      (id : ℕ) (m : MessageData) (hs : List (MessageHandler C))
      → id ≢ message_id_all
      → id ≢ m.header.message_id
      → keep (is_for m) (remove_all_message_handlers id hs) ≡ keep (is_for m) hs
  unfolding remove_all_message_handlers handles
  keep-remove_all_message_handlers id m [] a b = refl
  keep-remove_all_message_handlers id m (h ∷ hs) a b =
      ground (arith, keep-remove_all_message_handlers id m hs a b)
