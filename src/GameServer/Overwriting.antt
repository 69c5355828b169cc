-- ===== src/GameServer/Overwriting.antt =====
-- What a package for a unit does to a running server: the handlers of uist-game/Game.cpp and the
-- `updateData` of the unit, which a server has as well as a client.
use footscreen.Base.{
  ℕ, ◌+◌, ◌≤◌, ◌<◌, ◌≡◌, refl, sym, ap, ◌∙◌, false, none, some, [], ◌∷◌, ◌++◌, keep, keep-append,
  any-keep, append-nil, arith, if◌then◌else◌,
}
use footscreen.Floats.{Floats}
use footscreen.MessageData.{
  MessageData, payload, message_id_first, set_network_server_session, IsWellFormed,
}
use footscreen.Actions.{error}
use footscreen.Message.{Region, RegisteredMessageType, update_data}
use footscreen.Message.Types.{IsRegistered}
use footscreen.Message.Transfer.{write_region-payload, update_types-hit}
use footscreen.Message.Identity.{own_handler}
use footscreen.Handlers.{MessageHandler, message_game_unit, handles, add_message_handler}
use footscreen.Handlers.Dispatch.{is_for, call_all}
use footscreen.Units.{GameUnit, GameUnitData}
use footscreen.Game.{Game, unit_by_id, obstacle_by_id}
use footscreen.Game.Updates.{update_object, handle_game_unit-known}
use footscreen.Game.Level.Registration.{count_up, owned}
use footscreen.Server.{
  GameNetworkServer, handle_message_received, player_profile_by_session, sender_warning, sender_id,
}
use footscreen.Server.Incoming.{handle_message_received-call_all}
use footscreen.GameServer.{GameServer}
use footscreen.GameServer.Callbacks.{
  Callback, updates, creates_units, RequestMemory, initialize_message_handlers, answer,
  run_callback,
}
use footscreen.GameServer.Loading.{initialize_game_handlers, game_callbacks}
use footscreen.GameServer.Loading.Reloading.{game_handlers}
use footscreen.GameServer.Loading.Quiet.{own-kept}
use footscreen.Game.Updates.Known.{update_units-unit_by_id, update_obstacles-unknown}

-- Whatever data has the same bytes in a region has the same owner and the same life.
abbrev pub TellsOwnerAndLife : {F : Type 0} → Region (GameUnitData F) → GameUnitData F → Type 0
TellsOwnerAndLife {F} region wanted =
    (d : GameUnitData F)
    → region.read d ≡ region.read wanted
    → (d.owner ≡ wanted.owner) × (d.is_living ≡ wanted.is_living)

-- The handler that a game registers for units.
abbrev unit_handler : MessageHandler Callback
unit_handler = record {
  message_type = message_game_unit;
  message_id = 1;
  message_handler_callback = some creates_units;
}

server-kept :
    (m : MessageData)
    → m.header.content_type ≡ message_game_unit
    → message_id_first ≤ m.header.message_id
    → keep (is_for m) (initialize_message_handlers [] ++ game_handlers game_callbacks)
      ≡ unit_handler ∷ []
unfolding handles add_message_handler initialize_game_handlers
server-kept m type id = ground arith

module _ {F D : Type 0} (f : Floats F D) (memory : RequestMemory F)
    (net : GameNetworkServer Callback) (g : Game F D) (u : GameUnit F)
    (t : RegisteredMessageType (GameUnitData F)) (m : MessageData) (session : ℕ) where
  abbrev pub serving : Game F D → GameServer F D Callback
  serving h = record { game_network_server = some net; game = some h }

  abbrev incoming : MessageData
  incoming = record m { network_server_session = some session }

  -- The bytes of the package become the data of the unit.
  unit-updated :
      u.message.registered_message_types ≡ t ∷ []
      → IsRegistered u.message.message_id t
      → t.header.content_type ≡ m.header.content_type
      → m.header.content_length ≡ t.region.size
      → IsWellFormed m
      → (d : GameUnitData F) × (update_data incoming u.message u.game_unit_data ≡ some d)
        × (t.region.read d ≡ payload m)
  unfolding update_data
  unit-updated only known type size formed =
      let (d, wrote, bytes) =
        write_region-payload incoming u.message.message_id t u.game_unit_data
          (record {
            is_header = formed.is_header;
            length_content = formed.length_content;
            content_length_le = formed.content_length_le;
          })
          known size in
      (d, rw only (update_types-hit incoming t [] u.game_unit_data type ∙ wrote), bytes)

  object-updated :
      (d : GameUnitData F)
      → unit_by_id m.header.message_id g.game_units ≡ some u
      → obstacle_by_id m.header.message_id g.game_obstacles ≡ none
      → update_data incoming u.message u.game_unit_data ≡ some d
      → (h : Game F D) × (update_object m.header.message_id incoming g ≡ some h)
        × (unit_by_id m.header.message_id h.game_units ≡ some (record u { game_unit_data = d }))
  unfolding update_object
  object-updated d found unknown done =
      let id = m.header.message_id in
      let (vs, e, known) = update_units-unit_by_id id incoming g.game_units u d found done in
      (
        record g { game_units = vs },
        rw e (rw (update_obstacles-unknown id incoming g.game_obstacles unknown) refl),
        known,
      )

  module _ (a n : ℕ)
      (handlers : net.message_handlers
        ≡ (initialize_message_handlers [] ++ game_handlers game_callbacks)
          ++ owned f memory.objects (count_up a n))
      (calls : memory.objects.update_of m.header.message_id ≡ updates m.header.message_id)
      (low : message_id_first ≤ a) (from : a ≤ m.header.message_id)
      (to : m.header.message_id < a + n) (type : m.header.content_type ≡ message_game_unit) where
    kept :
        keep (is_for incoming) net.message_handlers
        ≡ unit_handler ∷ own_handler (updates m.header.message_id) m.header.message_id ∷ []
    kept =
        ap (keep (is_for incoming)) handlers
        ∙ keep-append (is_for incoming)
            (initialize_message_handlers [] ++ game_handlers game_callbacks)
            (owned f memory.objects (count_up a n))
        ∙ (λ i.
            server-kept incoming type (omega (arith, low, from)) i
            ++ own-kept memory.objects.update_of incoming a n low from to i)
        ∙ ap (λ c. unit_handler ∷ own_handler c m.header.message_id ∷ []) calls

    received :
        (h : Game F D)
        → unit_by_id m.header.message_id g.game_units ≡ some u
        → update_object m.header.message_id incoming g ≡ some h
        → call_all
            (run_callback f memory)
            incoming
            (sender_id (player_profile_by_session (some session) net.player_profiles))
            (unit_handler ∷ own_handler (updates m.header.message_id) m.header.message_id ∷ [])
            (some (serving g, []))
          ≡ some (serving h, [])
    unfolding run_callback answer
    received h known done =
        rw (handle_game_unit-known f memory.objects incoming g net.message_handlers u known)
          (rw done refl)

    overwritten :
        unit_by_id m.header.message_id g.game_units ≡ some u
        → obstacle_by_id m.header.message_id g.game_obstacles ≡ none
        → u.message.registered_message_types ≡ t ∷ []
        → IsRegistered u.message.message_id t
        → t.header.content_type ≡ message_game_unit
        → m.header.content_length ≡ t.region.size
        → IsWellFormed m
        → (d : GameUnitData F) × (h : Game F D) × (handle_message_received
              (run_callback f memory)
              session
              m
              net
              (some (serving g, []))
            ≡ record {
              state = some (serving h, []);
              logged =
                  sender_warning (player_profile_by_session (some session) net.player_profiles);
              session_closed = false;
            })
          × (unit_by_id m.header.message_id h.game_units ≡ some (record u { game_unit_data = d }))
          × (t.region.read d ≡ payload m)
    unfolding set_network_server_session
    overwritten found unknown only known unit size formed =
        let profile = player_profile_by_session (some session) net.player_profiles in
        let (d, done, bytes) = unit-updated only known (unit ∙ sym type) size formed in
        let (h, updated, after) = object-updated d found unknown done in
        (
          d,
          h,
          handle_message_received-call_all (run_callback f memory) session m net
                (some (serving g, [])) (ground arith)
              ∙ (λ i. record {
                state =
                    (ap
                          (λ hs.
                            call_all (run_callback f memory) incoming (sender_id profile) hs
                              (some (serving g, [])))
                          kept
                        ∙ received h found updated)
                      i;
                logged =
                    (ap (λ b. sender_warning profile ++ (if b then [] else error ∷ []))
                          (any-keep (is_for incoming) unit_handler net.message_handlers _ kept)
                        ∙ append-nil (sender_warning profile))
                      i;
                session_closed = false;
              }),
          after,
          bytes,
        )

    -- A package of the type of units and with the ID of a unit of the game, from any session, of a
    -- player or not, makes its bytes the data of this unit. So the sender chooses the owner and the life
    -- of the unit: if the bytes are those of some data and tell these two members, the unit has them.
    -- With the handlers that a running server has after loading a level, nothing compares the sender
    -- with the owner. This is where the unit has one registered type, no obstacle has its ID, and the
    -- length of the package is the size of the data.
    pub handle_message_received-unit_by_id :
        unit_by_id m.header.message_id g.game_units ≡ some u
        → obstacle_by_id m.header.message_id g.game_obstacles ≡ none
        → u.message.registered_message_types ≡ t ∷ []
        → IsRegistered u.message.message_id t
        → t.header.content_type ≡ message_game_unit
        → m.header.content_length ≡ t.region.size
        → IsWellFormed m
        → (wanted : GameUnitData F) → payload m ≡ t.region.read wanted
        → TellsOwnerAndLife t.region wanted
        → (d : GameUnitData F) × (h : Game F D) × (handle_message_received
              (run_callback f memory)
              session
              m
              net
              (some (serving g, []))
            ≡ record {
              state = some (serving h, []);
              logged =
                  sender_warning (player_profile_by_session (some session) net.player_profiles);
              session_closed = false;
            })
          × (unit_by_id m.header.message_id h.game_units ≡ some (record u { game_unit_data = d }))
          × (t.region.read d ≡ payload m)
          × (d.owner ≡ wanted.owner)
          × (d.is_living ≡ wanted.is_living)
    handle_message_received-unit_by_id found unknown only known unit size formed wanted sent tells =
        let (d, h, received, after, bytes) =
          overwritten found unknown only known unit size formed in
        let (owner, life) = tells d (bytes ∙ sent) in (d, h, received, after, bytes, owner, life)
