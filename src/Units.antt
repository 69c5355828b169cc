-- ===== src/Units.antt =====
-- uist-game/GameUnit.h, GameUnit.cpp, GameObstacle.h and GameObstacle.cpp: the pieces of the game and
-- how they move. Drawing is in Game.Rendering.
pub mod Motion
use footscreen.Base.{ℕ, Bool, true, false, not, ◌&&◌, ◌||◌, if◌then◌else◌}
use footscreen.Base.Int.{ℤ, ◌-ℤ◌}
use footscreen.Floats.{Floats}
use footscreen.Handlers.{message_game_unit, message_game_obstacle}
use footscreen.Message.{
  Message, Region, new_message, register_message_type, update_frequency_always,
}

-- The members of a unit that are synchronised.
pub record GameUnitData (F : Type 0) : Type 0 where
  pub x : F
  pub y : F
  pub number : ℕ
  pub owner : ℕ
  pub is_highlighted : Bool
  pub is_living : Bool
  pub has_arrived : Bool

pub record Vector (F : Type 0) : Type 0 where
  pub first : F
  pub second : F

pub record GameUnit (F : Type 0) : Type 0 where
  pub message : Message (GameUnitData F)
  pub game_unit_data : GameUnitData F
  pub open game_unit_data use *
  pub velocity : Vector F
  pub acceleration : Vector F
  pub is_hunting : Bool

pub record GameObstacleData (F : Type 0) : Type 0 where
  pub x : F
  pub y : F
  pub radius : F

pub record GameObstacle (F : Type 0) : Type 0 where
  pub message : Message (GameObstacleData F)
  pub game_obstacle_data : GameObstacleData F
  pub open game_obstacle_data use *

module _ {F : Type 0} where
  unfoldable pub set_position : F → F → GameUnit F → GameUnit F
  set_position x y u = record u { game_unit_data = record u.game_unit_data { x = x; y = y } }

  unfoldable pub set_number : ℕ → GameUnit F → GameUnit F
  set_number n u = record u { game_unit_data = record u.game_unit_data { number = n } }

  unfoldable pub set_owner : ℕ → GameUnit F → GameUnit F
  set_owner id u = record u { game_unit_data = record u.game_unit_data { owner = id } }

  unfoldable pub set_living : Bool → GameUnit F → GameUnit F
  set_living b u = record u { game_unit_data = record u.game_unit_data { is_living = b } }

  unfoldable pub set_hunting : Bool → GameUnit F → GameUnit F
  set_hunting b u = record u { is_hunting = b }

  unfoldable pub set_highlighted : Bool → GameUnit F → GameUnit F
  set_highlighted b u = record u { game_unit_data = record u.game_unit_data { is_highlighted = b } }

  unfoldable pub set_arrived : Bool → GameUnit F → GameUnit F
  set_arrived b u = record u { game_unit_data = record u.game_unit_data { has_arrived = b } }

  unfoldable pub set_acceleration : Vector F → GameUnit F → GameUnit F
  set_acceleration a u = record u { acceleration = a }

  unfoldable pub set_obstacle_position : F → F → GameObstacle F → GameObstacle F
  set_obstacle_position x y o = record o {
    game_obstacle_data = record o.game_obstacle_data { x = x; y = y };
  }

  unfoldable pub set_radius : F → GameObstacle F → GameObstacle F
  set_radius r o = record o { game_obstacle_data = record o.game_obstacle_data { radius = r } }

module _ {F D : Type 0} (f : Floats F D) where
  open f use {
    lit, add, sub, mul, div, neg, fabs, lt, le, truncate, of_int, widen, narrow, d_six_fifths,
    d_mul, d_div, norm_point, norm_float, dot,
  }

  abbrev pub maximal_velocity : F
  maximal_velocity = lit 110

  abbrev pub maximal_acceleration : F
  maximal_acceleration = lit 1000

  abbrev pub brake_factor : F
  brake_factor = lit 10

  abbrev pub unit_radius : F
  unit_radius = lit 8

  abbrev zero_vector : Vector F
  zero_vector = record { first = lit 0; second = lit 0 }

  abbrev scaled : Vector F → F → Vector F
  scaled v k = record { first = mul v.first k; second = mul v.second k }

  -- The constructors. `garbage` and `hunting` are what memory held, since not every member is set.
  unfoldable pub new_game_unit : Region (GameUnitData F) → GameUnitData F → Bool → Bool → GameUnit F
  new_game_unit region garbage hunting attached = record {
    message =
        register_message_type message_game_unit region region.size update_frequency_always
          (new_message attached);
    game_unit_data = record garbage {
      is_living = true;
      has_arrived = false;
      is_highlighted = false;
    };
    velocity = zero_vector;
    acceleration = zero_vector;
    is_hunting = hunting;
  }

  unfoldable pub new_game_obstacle :
      Region (GameObstacleData F) → GameObstacleData F → Bool → GameObstacle F
  new_game_obstacle region garbage attached = record {
    message =
        register_message_type message_game_obstacle region region.size update_frequency_always
          (new_message attached);
    game_obstacle_data = record garbage { radius = lit 64 };
  }

  -- The velocity after braking and accelerating, and its cut to the maximum.
  unfoldable pub accelerated : F → GameUnit F → Vector F
  accelerated time u =
      let brake = scaled u.velocity brake_factor in
      record {
        first = add u.velocity.first (mul (sub u.acceleration.first brake.first) time);
        second = add u.velocity.second (mul (sub u.acceleration.second brake.second) time);
      }

  unfoldable pub limited : Vector F → Vector F
  limited v =
      let speed = narrow (norm_float v.first v.second) in
      if lt maximal_velocity speed then scaled v (div maximal_velocity speed) else v

  unfoldable pub move : F → GameUnit F → GameUnit F
  unfolding accelerated limited set_position
  move time u =
      if not u.is_living || u.has_arrived
      then record u { velocity = zero_vector; acceleration = zero_vector }
      else let v = limited (accelerated time u) in
        set_position (add u.x (mul v.first time)) (add u.y (mul v.second time))
          (record u { velocity = v })

  -- A `cv::Point` has whole numbers, to which the coordinates are cut.
  abbrev pub position : GameUnit F → ℤ × ℤ
  position u = (truncate u.x, truncate u.y)

  abbrev pub obstacle_position : GameObstacle F → ℤ × ℤ
  obstacle_position o = (truncate o.x, truncate o.y)

  abbrev pub distance : ℤ × ℤ → ℤ × ℤ → F
  distance a b = narrow (norm_point (a.0 -ℤ b.0) (a.1 -ℤ b.1))

  unfoldable pub collides_with_unit : GameUnit F → GameUnit F → Bool
  collides_with_unit u v =
      if u.is_hunting && v.is_hunting
      then false
      else if not u.is_hunting && not v.is_hunting
      then false
      else lt (distance (position u) (position v)) (mul (lit 2) unit_radius)

  unfoldable pub collides_with_obstacle : GameUnit F → GameObstacle F → Bool
  collides_with_obstacle u o =
      lt (distance (position u) (obstacle_position o)) (add unit_radius o.radius)

  -- The vector from the obstacle to the unit, in whole numbers.
  abbrev pub direction : GameUnit F → GameObstacle F → Vector F
  direction u o = record {
    first = of_int ((position u).0 -ℤ (obstacle_position o).0);
    second = of_int ((position u).1 -ℤ (obstacle_position o).1);
  }

  -- A vector times a `double`.
  abbrev stretched : Vector F → D → Vector F
  stretched v k = record {
    first = narrow (d_mul (widen v.first) k);
    second = narrow (d_mul (widen v.second) k);
  }

  unfoldable pub reflect_on : GameObstacle F → GameUnit F → GameUnit F
  reflect_on o u =
      let away = direction u o in
      let axis = stretched away (d_div (widen (lit 1)) (norm_float away.first away.second)) in
      let speed = dot u.velocity.first u.velocity.second axis.first axis.second in
      let x = sub u.velocity.first (mul axis.first speed) in
      let y = sub u.velocity.second (mul axis.second speed) in
      let final = fabs (neg speed) in
      record u {
        velocity = record {
          first = add x (mul axis.first final);
          second = add y (mul axis.second final);
        };
      }

  -- How far the unit is from touching the obstacle.
  abbrev pub overlapping_distance : GameObstacle F → GameUnit F → F
  overlapping_distance o u =
      let away = direction u o in
      sub (narrow (norm_float away.first away.second)) (add unit_radius o.radius)

  unfoldable pub separate_from : GameObstacle F → GameUnit F → GameUnit F
  unfolding reflect_on set_position
  separate_from o u =
      let away = direction u o in
      let overlap = overlapping_distance o u in
      let apart =
        stretched away
          (d_div (d_mul (widen overlap) d_six_fifths) (norm_float away.first away.second)) in
      let reflected = reflect_on o u in
      if le overlap (lit 0)
      then reflected
      else set_position (add u.x apart.first) (add u.y apart.second) reflected

  abbrev pub near_wall : F
  near_wall = div unit_radius (lit 2)

  abbrev pub far_wall : F
  far_wall = sub (lit 480) near_wall

  -- One axis of `reflectOnWalls`: the position and the velocity along it.
  unfoldable pub reflect_axis : F → F → F × F
  reflect_axis p v =
      let (p', v') = if lt p near_wall then (near_wall, neg v) else (p, v) in
      if lt far_wall p' then (far_wall, neg v') else (p', v')

  unfoldable pub reflect_on_walls : GameUnit F → GameUnit F
  unfolding reflect_axis set_position
  reflect_on_walls u =
      let (x, vx) = reflect_axis u.x u.velocity.first in
      let (y, vy) = reflect_axis u.y u.velocity.second in
      set_position x y (record u { velocity = record { first = vx; second = vy } })
