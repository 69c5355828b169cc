-- ===== src/Server.antt =====
-- uist-game/PlayerProfile.h, PlayerProfile.cpp, GameNetworkServer.h and GameNetworkServer.cpp: the
-- players of the server, and the packages that it sends them. A session is a number; what is sent is
-- the list of calls of `NetworkServerSession::send`. `none` is a null pointer that is followed.
pub mod Players
pub mod Sending
pub mod Incoming
use footscreen.Base.{
  ℕ, ◌+◌, ◌%◌, ◌≡◌, Bool, true, false, Option, none, some, List, [], ◌∷◌, ◌++◌, ◌==◌, if◌then◌else◌,
  ◌>>=◌, is_some,
}
use footscreen.MessageData.{
  MessageData, message_id_none, id_none, id_server, id_all_clients, id_new_client, id_first_client,
  set_network_server_session,
}
use footscreen.Handlers.{MessageHandler, message_undefined, handle_message, clear_message_handlers}
use footscreen.Actions.{Level, error, warning}

pub record PlayerProfile : Type 0 where
  pub player_id : ℕ
  pub session : Option ℕ

abbrev pub same_session : Option ℕ → Option ℕ → Bool
same_session none none = true
same_session (some a) (some b) = a == b
same_session _ _ = false

-- A profile before its two members are set.
abbrev unset_profile : PlayerProfile
unset_profile = record { player_id = 0; session = none }

abbrev pub set_player_id : ℕ → PlayerProfile → PlayerProfile
set_player_id id p = record p { player_id = id }

abbrev pub set_session : ℕ → PlayerProfile → PlayerProfile
set_session session p = record p { session = some session }

pub record GameNetworkServer (C : Type 0) : Type 0 where
  pub message_handlers : List (MessageHandler C)
  pub next_player_id : ℕ
  pub player_profiles : List PlayerProfile

unfoldable pub player_profile_by_id : ℕ → List PlayerProfile → Option PlayerProfile
player_profile_by_id id [] = none
player_profile_by_id id (p ∷ ps) = if p.player_id == id then some p else player_profile_by_id id ps

unfoldable pub player_profile_by_session : Option ℕ → List PlayerProfile → Option PlayerProfile
player_profile_by_session s [] = none
player_profile_by_session s (p ∷ ps) =
    if same_session p.session s then some p else player_profile_by_session s ps

-- What a call of `send` does: the calls on sessions, and the lines logged.
pub record Sent : Type 0 where
  pub packages : List (ℕ × MessageData)
  pub logged : List Level

abbrev pub nothing_but : Level → Sent
nothing_but level = record { packages = []; logged = level ∷ [] }

unfoldable pub broadcast : MessageData → List PlayerProfile → Option (List (ℕ × MessageData))
broadcast m [] = some []
broadcast m (p ∷ ps) = p.session >>= λ s. broadcast m ps >>= λ rest. some ((s, m) ∷ rest)

-- The last branch, with its test as it stands in the source.
unfoldable pub send_to : MessageData → Option PlayerProfile → Option Sent
send_to m profile =
    if is_some profile
    then some (nothing_but error)
    else (profile >>= λ p. elim p.session [
      | some s ↦ some (record { packages = (s, m) ∷ []; logged = [] })
      | none ↦ some (nothing_but warning)
    ])

module _ {C : Type 0} where
  unfoldable pub run : GameNetworkServer C → GameNetworkServer C
  run g = record g { next_player_id = id_first_client }

  unfoldable pub stop : GameNetworkServer C → GameNetworkServer C
  unfolding clear_message_handlers
  stop g = record g { message_handlers = clear_message_handlers g.message_handlers }

  unfoldable pub send : MessageData → ℕ → GameNetworkServer C → Option Sent
  unfolding broadcast send_to player_profile_by_id
  send m receiver g =
      if m.header.content_type == message_undefined
      then some (nothing_but error)
      else if m.header.message_id == message_id_none
      then some (nothing_but error)
      else if receiver == id_server
      then some (nothing_but warning)
      else if receiver == id_all_clients
      then broadcast m g.player_profiles >>= (λ ps. some (record { packages = ps; logged = [] }))
      else send_to m (player_profile_by_id receiver g.player_profiles)

  -- `onSessionAccepted` is then emitted for the session.
  unfoldable pub handle_session_accepted : ℕ → GameNetworkServer C → GameNetworkServer C
  handle_session_accepted s g = record g {
    next_player_id = (g.next_player_id + 1) % 65536;
    player_profiles =
        g.player_profiles ++ set_session s (set_player_id g.next_player_id unset_profile) ∷ [];
  }

-- What an incoming package comes to: the state after the callbacks, the lines logged, and whether
-- `onSessionClosed` is emitted.
pub record Received (S : Type 0) : Type 0 where
  pub state : S
  pub logged : List Level
  pub session_closed : Bool

abbrev pub sender_id : Option PlayerProfile → ℕ
sender_id none = id_new_client
sender_id (some p) = p.player_id

abbrev pub sender_warning : Option PlayerProfile → List Level
sender_warning none = warning ∷ []
sender_warning (some p) = []

unfoldable pub handle_message_received :
    {C S : Type 0}
    → (C → MessageData → ℕ → S → S)
    → ℕ
    → MessageData
    → GameNetworkServer C
    → S
    → Received S
unfolding player_profile_by_session set_network_server_session handle_message
handle_message_received call s m g state =
    if m.header.content_type == id_none
    then record { state = state; logged = warning ∷ []; session_closed = true }
    else let profile = player_profile_by_session (some s) g.player_profiles in
      let (state', logged) =
        handle_message call g.message_handlers (set_network_server_session (some s) m)
          (sender_id profile) state in
      record { state = state'; logged = sender_warning profile ++ logged; session_closed = false }
