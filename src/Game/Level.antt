-- ===== src/Game/Level.antt =====
-- The levels of `Game::load` in uist-game/Game.cpp, and the loading of one.
pub mod Placement
pub mod Registration
pub mod Destruction
use footscreen.Base.{
  ℕ, ◌+◌, ◌-◌, ◌%◌, Bool, true, false, Option, none, some, List, [], ◌∷◌, ◌++◌, ◌==◌, if◌then◌else◌,
  ◌>>=◌,
}
use footscreen.Base.Int.{pos}
use footscreen.Floats.{Floats}
use footscreen.MessageData.{id_first_client}
use footscreen.Handlers.{MessageHandler}
use footscreen.Message.{Region, generate_message_id, destroy}
use footscreen.Units.{
  GameUnitData, GameObstacleData, GameUnit, GameObstacle, new_game_unit, new_game_obstacle,
  set_position, set_number, set_owner, set_hunting, set_obstacle_position, set_radius,
}
use footscreen.Game.{Game, reset}

pub record Layout : Type 0 where
  pub unit_positions_player_1 : List (ℕ × ℕ)
  pub unit_positions_player_2 : List (ℕ × ℕ)
  pub obstacle_positions : List (ℕ × ℕ)
  pub obstacle_radii : List ℕ

abbrev pub level_2 : Layout
level_2 = record {
  unit_positions_player_1 = (20, 96) ∷ (100, 80) ∷ (180, 64) ∷ (380, 80) ∷ (460, 96) ∷ [];
  unit_positions_player_2 = (20, 360) ∷ (100, 344) ∷ (300, 328) ∷ (380, 344) ∷ (460, 360) ∷ [];
  obstacle_positions = (240, 240) ∷ (0, 0) ∷ (0, 480) ∷ (480, 0) ∷ (480, 480) ∷ [];
  obstacle_radii = 50 ∷ 50 ∷ 50 ∷ 50 ∷ 50 ∷ [];
}

abbrev pub level_3 : Layout
level_3 = record {
  unit_positions_player_1 = (20, 96) ∷ (60, 80) ∷ (100, 64) ∷ (420, 80) ∷ (460, 96) ∷ [];
  unit_positions_player_2 = (20, 360) ∷ (60, 344) ∷ (380, 328) ∷ (420, 344) ∷ (460, 360) ∷ [];
  obstacle_positions =
      (240, 0)
      ∷ (240, 480)
      ∷ (240, 80)
      ∷ (240, 400)
      ∷ (0, 240)
      ∷ (480, 240)
      ∷ (160, 240)
      ∷ (320, 240)
      ∷ [];
  obstacle_radii = 75 ∷ 75 ∷ 60 ∷ 60 ∷ 50 ∷ 50 ∷ 30 ∷ 30 ∷ [];
}

abbrev pub level_4 : Layout
level_4 = record {
  unit_positions_player_1 = (340, 96) ∷ (370, 80) ∷ (400, 64) ∷ (430, 80) ∷ (460, 96) ∷ [];
  unit_positions_player_2 = (20, 360) ∷ (50, 344) ∷ (80, 328) ∷ (110, 344) ∷ (140, 360) ∷ [];
  obstacle_positions =
      (40, 40) ∷ (440, 440) ∷ (240, 40) ∷ (240, 440) ∷ (200, 200) ∷ (280, 280) ∷ [];
  obstacle_radii = 100 ∷ 100 ∷ 75 ∷ 75 ∷ 30 ∷ 30 ∷ [];
}

abbrev pub level_default : Layout
level_default = record {
  unit_positions_player_1 = (20, 96) ∷ (60, 96) ∷ (100, 96) ∷ (420, 96) ∷ (460, 96) ∷ [];
  unit_positions_player_2 = (20, 360) ∷ (60, 360) ∷ (380, 360) ∷ (420, 360) ∷ (460, 360) ∷ [];
  obstacle_positions =
      (44, 192) ∷ (44 + 88, 192) ∷ (436, 192) ∷ (436 - 88, 192) ∷ (216, 272) ∷ (264, 272) ∷ [];
  obstacle_radii = 44 ∷ 44 ∷ 44 ∷ 44 ∷ 12 ∷ 12 ∷ [];
}

unfoldable pub layout_of : ℕ → Layout
layout_of level =
    if level == 2
    then level_2
    else if level == 3
    then level_3
    else if level == 4
    then level_4
    else level_default

-- What loading changes outside the game: the handlers of the interface and the static counter of
-- message IDs.
pub record Registry (C : Type 0) : Type 0 where
  pub message_handlers : List (MessageHandler C)
  pub next_message_id : ℕ

-- The parts of memory that the objects stand in, and the callback that an object registers, by its
-- message ID. `garbage` and `hunting` are what memory held.
pub record Memory (F C : Type 0) : Type 0 where
  pub unit_region : Region (GameUnitData F)
  pub obstacle_region : Region (GameObstacleData F)
  pub unit_garbage : GameUnitData F
  pub obstacle_garbage : GameObstacleData F
  pub hunting : Bool
  pub update_of : ℕ → C

-- The destructors of the units and obstacles that `reset` drops.
unfoldable pub destroy_units :
    {F C : Type 0} → List (GameUnit F) → List (MessageHandler C) → List (MessageHandler C)
destroy_units [] hs = hs
destroy_units (u ∷ us) hs = destroy_units us (destroy u.message hs)

unfoldable pub destroy_obstacles :
    {F C : Type 0} → List (GameObstacle F) → List (MessageHandler C) → List (MessageHandler C)
destroy_obstacles [] hs = hs
destroy_obstacles (o ∷ os) hs = destroy_obstacles os (destroy o.message hs)

module _ {F D C : Type 0} (f : Floats F D) (memory : Memory F C) where
  open f use {of_int}

  -- One round of the loops over the positions of a player's units; the interface is attached.
  unfoldable pub load_unit : ℕ → ℕ → Bool → ℕ × ℕ → Registry C → GameUnit F × Registry C
  unfolding set_position set_number set_owner set_hunting
  load_unit number owner hunting (x, y) r =
      let u = new_game_unit f memory.unit_region memory.unit_garbage memory.hunting true in
      let id = r.next_message_id in
      let (message, hs, next) =
        generate_message_id (memory.update_of id) id u.message r.message_handlers in
      (
        set_hunting hunting (
            set_position (of_int (pos x)) (of_int (pos y))
              (set_owner owner (set_number number (record u { message = message })))),
        record { message_handlers = hs; next_message_id = next },
      )

  unfoldable pub load_units :
      ℕ → ℕ → Bool → List (ℕ × ℕ) → Registry C → List (GameUnit F) × Registry C
  unfolding load_unit
  load_units number owner hunting [] r = ([], r)
  load_units number owner hunting (p ∷ ps) r =
      let (u, r') = load_unit number owner hunting p r in
      let (us, end) = load_units ((number + 1) % 256) owner hunting ps r' in (u ∷ us, end)

  unfoldable pub load_obstacle : ℕ × ℕ → ℕ → Registry C → GameObstacle F × Registry C
  unfolding set_obstacle_position set_radius
  load_obstacle (x, y) radius r =
      let o = new_game_obstacle f memory.obstacle_region memory.obstacle_garbage true in
      let id = r.next_message_id in
      let (message, hs, next) =
        generate_message_id (memory.update_of id) id o.message r.message_handlers in
      (
        set_radius (of_int (pos radius)) (
            set_obstacle_position (of_int (pos x)) (of_int (pos y))
              (record o { message = message })),
        record { message_handlers = hs; next_message_id = next },
      )

  -- The radii are read by the index of the positions: `none` is an index out of bounds.
  unfoldable pub load_obstacles :
      List (ℕ × ℕ) → List ℕ → Registry C → Option (List (GameObstacle F) × Registry C)
  unfolding load_obstacle
  load_obstacles [] radii r = some ([], r)
  load_obstacles (p ∷ ps) [] r = none
  load_obstacles (p ∷ ps) (radius ∷ radii) r =
      let (o, r') = load_obstacle p radius r in
      load_obstacles ps radii r' >>= λ (os, end). some (o ∷ os, end)

  unfoldable pub load : ℕ → Game F D → Registry C → Option (Game F D × Registry C)
  unfolding destroy_units destroy_obstacles reset layout_of load_units load_obstacles
  load level g r =
      let layout = layout_of level in
      let hs = destroy_obstacles g.game_obstacles (destroy_units g.game_units r.message_handlers) in
      let (sheep, r₁) =
        load_units 1 id_first_client false layout.unit_positions_player_1
          (record r { message_handlers = hs }) in
      let (wolves, r₂) =
        load_units 1 (id_first_client + 1) true layout.unit_positions_player_2 r₁ in
      load_obstacles layout.obstacle_positions layout.obstacle_radii r₂ >>= λ (obstacles, end).
      some (record (reset g) { game_units = sheep ++ wolves; game_obstacles = obstacles }, end)
