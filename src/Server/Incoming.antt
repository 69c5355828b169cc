-- ===== src/Server/Incoming.antt =====
-- What `GameNetworkServer::handleMessageReceived` does with a package of a session.
use footscreen.Base.{
  ℕ, false, true, ◌≡◌, ◌≢◌, refl, ap, ◌∙◌, Option, none, some, List, [], ◌∷◌, ◌++◌, keep, any,
  arith, if◌then◌else◌,
}
use footscreen.MessageData.{
  MessageData, id_none, id_new_client, set_network_server_session, set_content_type,
}
use footscreen.Actions.{Level, error, warning}
use footscreen.Handlers.Dispatch.{is_for, call_all, handle_message-call_all}
use footscreen.Server.{
  GameNetworkServer, PlayerProfile, Received, handle_message_received, handle_session_accepted,
  player_profile_by_session, sender_id, sender_warning,
}
use footscreen.Server.Players.{player_profile_by_session-handle_session_accepted}

module _ {C S : Type 0} (call : C → MessageData → ℕ → S → S) (s : ℕ) (m : MessageData)
    (g : GameNetworkServer C) (state : S) where
  -- The error of a package that has no handler.
  abbrev pub unheard : List Level
  unheard =
      if any (is_for (set_network_server_session (some s) m)) g.message_handlers
      then []
      else error ∷ []

  -- A package with a type runs the callbacks that match it, each with the session attached to the
  -- package and with the ID of the session's player, or the new client's if it has none; the lines
  -- logged are a warning if there is no player and then an error if there is no handler, and the
  -- session stays open.
  pub handle_message_received-call_all :
      m.header.content_type ≢ id_none
      → let profile = player_profile_by_session (some s) g.player_profiles in
        let incoming = set_network_server_session (some s) m in
        handle_message_received call s m g state ≡ record {
          state =
              call_all call incoming
                (sender_id profile)
                (keep (is_for incoming) g.message_handlers)
                state;
          logged =
              sender_warning profile
              ++ (if any (is_for incoming) g.message_handlers then [] else error ∷ []);
          session_closed = false;
        }
  unfolding handle_message_received set_network_server_session
  handle_message_received-call_all typed = ground (
    arith,
    handle_message-call_all call (record m { network_server_session = some s })
        (sender_id (player_profile_by_session (some s) g.player_profiles)) g.message_handlers state,
  )

  found :
      (o : Option PlayerProfile)
      → player_profile_by_session (some s) g.player_profiles ≡ o
      → m.header.content_type ≢ id_none
      → let incoming = set_network_server_session (some s) m in
        handle_message_received call s m g state ≡ record {
          state =
              call_all call incoming
                (sender_id o)
                (keep (is_for incoming) g.message_handlers)
                state;
          logged = sender_warning o ++ unheard;
          session_closed = false;
        }
  found o e typed =
      handle_message_received-call_all typed
      ∙ ap
          (λ p.
            let incoming = set_network_server_session (some s) m in
            record {
              state =
                  call_all call incoming (sender_id p) (keep (is_for incoming) g.message_handlers)
                    state;
              logged = sender_warning p ++ unheard;
              session_closed = false;
            })
          e

module _ {C S : Type 0} (call : C → MessageData → ℕ → S → S) (s : ℕ) (m : MessageData)
    (g : GameNetworkServer C) (state : S) where
  -- A package of a session that has no player, and the same package once the session is accepted: both
  -- times the callbacks that match it run in order, with the session attached, and an error is logged
  -- if there is none. At first the sender is the new client's ID and a warning is logged before; then it
  -- is the ID that was the next one, without a warning. A package without a type runs nothing and closes
  -- the session with a warning, accepted or not.
  pub handle_message_received-handle_session_accepted :
      player_profile_by_session (some s) g.player_profiles ≡ none
      → m.header.content_type ≢ id_none
      → let incoming = set_network_server_session (some s) m in
        let called = keep (is_for incoming) g.message_handlers in
        let accepted = handle_session_accepted s g in
        let closed : Received S = record {
          state = state;
          logged = warning ∷ [];
          session_closed = true;
        } in
        (handle_message_received call s m g state ≡ record {
          state = call_all call incoming id_new_client called state;
          logged = warning ∷ unheard call s m g state;
          session_closed = false;
        })
        × (handle_message_received call s m accepted state ≡ record {
          state = call_all call incoming g.next_player_id called state;
          logged = unheard call s m g state;
          session_closed = false;
        })
        × (handle_message_received call s (set_content_type id_none m) g state ≡ closed)
        × (handle_message_received call s (set_content_type id_none m) accepted state ≡ closed)
  unfolding handle_message_received handle_session_accepted set_content_type
  handle_message_received-handle_session_accepted stranger typed = (
    found call s m g state none stranger typed,
    found call s m (handle_session_accepted s g) state
        (some (record { player_id = g.next_player_id; session = some s }))
        (player_profile_by_session-handle_session_accepted s g stranger) typed,
    refl,
    refl,
  )
