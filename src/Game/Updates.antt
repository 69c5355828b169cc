-- ===== src/Game/Updates.antt =====
-- What a client of uist-game/Game.cpp does with the units, obstacles and IDs that the server sends.
pub mod Known
use footscreen.Base.{
  ℕ, ◌≡◌, refl, ◌∙◌, true, false, Option, none, some, List, [], ◌∷◌, ◌++◌, ◌>>=◌, ◌==◌, arith,
  Bool-cases, inl, inr, if◌then◌else◌,
}
use footscreen.Floats.{Floats}
use footscreen.MessageData.{MessageData, payload}
use footscreen.Handlers.{MessageHandler, message_game_unit}
use footscreen.Message.{
  Region, create_from_data, update_data, set_message_id, register_message_type, new_message,
}
use footscreen.Message.Creation.{IsFor, create_from_data-payload}
use footscreen.Units.{GameUnit, GameObstacle, new_game_unit, new_game_obstacle}
use footscreen.Requests.{PlayerData, new_player_id, read_request}
use footscreen.Game.{Game, unit_by_id, obstacle_by_id}
use footscreen.Game.Level.{Memory}

unfoldable pub handle_new_player_id :
    {F D C : Type 0} → C → Region PlayerData → MessageData → Game F D → Option (Game F D)
unfolding read_request new_player_id
handle_new_player_id self region incoming g =
    read_request self incoming (new_player_id self false region []) >>= λ d.
    some (record g { own_player_id = d.player_id })

module _ {F D C : Type 0} (f : Floats F D) (memory : Memory F C) (incoming : MessageData) where
  unfoldable pub handle_game_unit :
      Game F D → List (MessageHandler C) → Option (Game F D × List (MessageHandler C))
  unfolding unit_by_id new_game_unit create_from_data
  handle_game_unit g hs =
      let id = incoming.header.message_id in
      let u = new_game_unit f memory.unit_region memory.unit_garbage memory.hunting true in
      elim (unit_by_id id g.game_units) [
        | some known ↦ some (g, hs)
        | none ↦
            create_from_data (memory.update_of id) incoming u.message hs u.game_unit_data
            >>= λ (m, hs', d). some (
              record g {
                game_units = g.game_units ++ record u { message = m; game_unit_data = d } ∷ [];
              },
              hs',
            )
      ]

  unfoldable pub handle_game_obstacle :
      Game F D → List (MessageHandler C) → Option (Game F D × List (MessageHandler C))
  unfolding obstacle_by_id new_game_obstacle create_from_data
  handle_game_obstacle g hs =
      let id = incoming.header.message_id in
      let o = new_game_obstacle f memory.obstacle_region memory.obstacle_garbage true in
      elim (obstacle_by_id id g.game_obstacles) [
        | some known ↦ some (g, hs)
        | none ↦
            create_from_data (memory.update_of id) incoming o.message hs o.game_obstacle_data
            >>= λ (m, hs', d). some (
              record g {
                game_obstacles =
                    g.game_obstacles ++ record o { message = m; game_obstacle_data = d } ∷ [];
              },
              hs',
            )
      ]

-- `updateData` of the object that a handler is bound to, by its message ID: `none` is memory
-- written out of bounds.
module _ {F : Type 0} (id : ℕ) (incoming : MessageData) where
  unfoldable pub update_units : List (GameUnit F) → Option (List (GameUnit F))
  unfolding update_data
  update_units [] = some []
  update_units (u ∷ us) =
      let rest = update_units us in
      if u.message.message_id == id
      then (update_data incoming u.message u.game_unit_data >>= λ d.
          some (record u { game_unit_data = d } ∷ us))
      else (rest >>= λ vs. some (u ∷ vs))

  unfoldable pub update_obstacles : List (GameObstacle F) → Option (List (GameObstacle F))
  unfolding update_data
  update_obstacles [] = some []
  update_obstacles (o ∷ os) =
      let rest = update_obstacles os in
      if o.message.message_id == id
      then (update_data incoming o.message o.game_obstacle_data >>= λ d.
          some (record o { game_obstacle_data = d } ∷ os))
      else (rest >>= λ ps. some (o ∷ ps))

  unfoldable pub update_object : {D : Type 0} → Game F D → Option (Game F D)
  unfolding update_units update_obstacles
  update_object g = update_units g.game_units >>= λ us. update_obstacles g.game_obstacles >>= λ os.
      some (record g { game_units = us; game_obstacles = os })

unit_by_id-append :
    {F : Type 0} (id : ℕ) (us : List (GameUnit F)) (u : GameUnit F)
    → unit_by_id id us ≡ none
    → u.message.message_id ≡ id
    → unit_by_id id (us ++ u ∷ []) ≡ some u
unfolding unit_by_id
unit_by_id-append id [] u fresh same = ground arith
unit_by_id-append id (v ∷ us) u fresh same = elim (Bool-cases (v.message.message_id == id)) [
  | inl hit ↦ absurd (ground arith)
  | inr miss ↦
      let later : unit_by_id id us ≡ none = ground arith in
      ground (arith, unit_by_id-append id us u later same)
]

module _ {F D C : Type 0} (f : Floats F D) (memory : Memory F C) (incoming : MessageData) where
  pub handle_game_unit-known :
      (g : Game F D) (hs : List (MessageHandler C)) (u : GameUnit F)
      → unit_by_id incoming.header.message_id g.game_units ≡ some u
      → handle_game_unit f memory incoming g hs ≡ some (g, hs)
  unfolding handle_game_unit
  handle_game_unit-known g hs u known = ground arith

  handle_game_unit-new :
      (g : Game F D) (hs : List (MessageHandler C))
      → unit_by_id incoming.header.message_id g.game_units ≡ none
      → let id = incoming.header.message_id in
        let u = new_game_unit f memory.unit_region memory.unit_garbage memory.hunting true in
        handle_game_unit f memory incoming g hs ≡ (
          create_from_data (memory.update_of id) incoming u.message hs u.game_unit_data
          >>= λ (m, hs', d). some (
            record g {
              game_units = g.game_units ++ record u { message = m; game_unit_data = d } ∷ [];
            },
            hs',
          ))
  unfolding handle_game_unit
  handle_game_unit-new g hs fresh = ground arith

  -- A unit that a client does not know yet is added once: the package of a unit with a new ID adds
  -- one unit at the end, which is found under this ID and has the data of the package, byte for byte;
  -- and when the same package arrives again, nothing changes.
  pub handle_game_unit-unit_by_id :
      (g : Game F D) (hs : List (MessageHandler C))
      → IsFor message_game_unit memory.unit_region incoming
      → unit_by_id incoming.header.message_id g.game_units ≡ none
      → (u : GameUnit F) × (h : Game F D) × (hs' : List (MessageHandler C)) × (handle_game_unit f
            memory incoming g hs
          ≡ some (h, hs'))
        × (h.game_units ≡ g.game_units ++ u ∷ [])
        × (unit_by_id incoming.header.message_id h.game_units ≡ some u)
        × (memory.unit_region.read u.game_unit_data ≡ payload incoming)
        × (handle_game_unit f memory incoming h hs' ≡ some (h, hs'))
  unfolding handle_game_unit new_game_unit set_message_id register_message_type new_message
  handle_game_unit-unit_by_id g hs v fresh =
      let id = incoming.header.message_id in
      let region = memory.unit_region in
      let self = memory.update_of id in
      let new = new_game_unit f region memory.unit_garbage memory.hunting true in
      let (d, e, bytes) =
        create_from_data-payload self incoming new.message
          (record {
            is_sending_enabled = true;
            header = record {
              message_id = 0;
              content_type = message_game_unit;
              content_length = region.size;
            };
            region = region;
            update_frequency = 3;
          })
          hs new.game_unit_data refl refl v in
      let u : GameUnit F = record new {
        message = (set_message_id self id new.message hs).0;
        game_unit_data = d;
      } in
      let h : Game F D = record g { game_units = g.game_units ++ u ∷ [] } in
      let hs' = (set_message_id self id new.message hs).1 in
      let found : unit_by_id id h.game_units ≡ some u =
        unit_by_id-append id g.game_units u fresh refl in
      (
        u,
        h,
        hs',
        handle_game_unit-new g hs fresh ∙ rw e refl,
        refl,
        found,
        bytes,
        handle_game_unit-known h hs' u found,
      )
