-- ===== src/Message/Identity.antt =====
-- Message IDs and handlers: `generateMessageID`, `setMessageID` and the destructor of
-- uist-game/Message.cpp, together with the dispatch of the interface.
use footscreen.Base.{
  ℕ, ◌+◌, ◌%◌, ◌≤◌, ◌≡◌, refl, Bool, true, false, some, List, [], ◌∷◌, ◌++◌, ◌==◌, keep, any, arith,
  le→leb,
}
use footscreen.MessageData.{MessageData, message_id_first}
use footscreen.Handlers.{MessageHandler, message_all_types, handles, add_message_handler}
use footscreen.Handlers.Dispatch.{is_for, remove-add_message_handler}
use footscreen.Message.{Message, set_message_id, generate_message_id, destroy}

module _ {C : Type 0} where
  abbrev pub own_handler : C → ℕ → MessageHandler C
  own_handler self id = record {
    message_type = message_all_types;
    message_id = id;
    message_handler_callback = some self;
  }

  keep-append_hit :
      (p : MessageHandler C → Bool) (hs : List (MessageHandler C)) (h : MessageHandler C)
      → p h ≡ true
      → keep p (hs ++ h ∷ []) ≡ keep p hs ++ h ∷ []
  keep-append_hit p [] h e = ground arith
  keep-append_hit p (k ∷ hs) h e = ground (arith, keep-append_hit p hs h e)

module _ {D C : Type 0} (self : C) where
  -- An object that takes the next ID and is destroyed leaves the handlers as they were, if none of
  -- them was for that ID; the static counter has moved on by one, modulo 2^16.
  pub destroy-generate_message_id :
      (next : ℕ) (m : Message D) (hs : List (MessageHandler C))
      → any (λ h. h.message_id == next) hs ≡ false
      → let (m', hs', next') = generate_message_id self next m hs in
        (destroy m' hs' ≡ hs) × (m'.message_id ≡ next) × (next' ≡ (next + 1) % 65536)
  unfolding generate_message_id destroy
  destroy-generate_message_id next m hs fresh =
      (ground (arith, remove-add_message_handler message_all_types next self hs fresh), refl, refl)

  -- An attached object with an ordinary ID receives every later package of that ID, whatever its
  -- type, after the handlers that were there before.
  pub set_message_id-handles :
      (id : ℕ) (m : Message D) (hs : List (MessageHandler C)) (incoming : MessageData)
      → m.is_attached ≡ true
      → message_id_first ≤ id
      → incoming.header.message_id ≡ id
      → keep (is_for incoming) (set_message_id self id m hs).1
        ≡ keep (is_for incoming) hs ++ own_handler self id ∷ []
  unfolding set_message_id add_message_handler handles
  set_message_id-handles id m hs incoming attached first same = ground (
    arith,
    le→leb message_id_first id first,
    keep-append_hit (is_for incoming) hs (own_handler self id) (ground arith),
  )
