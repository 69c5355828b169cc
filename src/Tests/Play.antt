-- ===== src/Tests/Play.antt =====
-- A game of a sheep and a wolf on whole numbers.
use footscreen.Base.{
  ℕ, ◌+◌, ◌≡◌, ◌↔◌, refl, Bool, true, false, not, ◌&&◌, none, List, [], ◌∷◌, length, get_elem?,
  keep, ◌==◌, if◌then◌else◌, arith,
}
use footscreen.Base.Int.{ℤ, pos, negsuc, ◌+ℤ◌, ◌-ℤ◌}
use footscreen.MessageData.{id_none}
use footscreen.Message.{Message}
use footscreen.Units.{
  GameUnit, GameObstacle, GameUnitData, GameObstacleData, reflect_on_walls, reflect_on,
  separate_from, near_wall, far_wall, collides_with_obstacle,
}
use footscreen.Units.Motion.{reflect_on_walls-within, separate_from-reflect_on}
use footscreen.Game.{Game, unit_by_index, collide_all, proceed, final_score, is_arrived_sheep}
use footscreen.Game.Lookup.{units_of, unit_by_index-get_elem?}
use footscreen.Game.Collisions.{living}
use footscreen.Game.Collisions.Danger.{IsEndangered, living-collide_all}
use footscreen.Game.Successor.{Evolves}
use footscreen.Game.Progress.{proceed-Evolves}
use footscreen.Game.Scoring.{is_living_sheep, final_score-keep}
use footscreen.Tests.Data.{whole_numbers, whole_numbers-IsOrdered}

abbrev unit_message : Message (GameUnitData ℤ)
unit_message = record { is_attached = false; registered_message_types = []; message_id = 3 }

abbrev obstacle_message : Message (GameObstacleData ℤ)
obstacle_message = record { is_attached = false; registered_message_types = []; message_id = 4 }

abbrev pub piece : ℕ → ℕ → ℕ → Bool → GameUnit ℤ
piece x y player hunting = record {
  message = unit_message;
  game_unit_data = record {
    x = pos x;
    y = pos y;
    number = 1;
    owner = player;
    is_highlighted = false;
    is_living = true;
    has_arrived = false;
  };
  velocity = record { first = negsuc 2; second = pos 0 };
  acceleration = record { first = pos 0; second = pos 0 };
  is_hunting = hunting;
}

abbrev pieces : List (GameUnit ℤ)
pieces = piece 100 100 4 false ∷ piece 105 102 5 true ∷ piece 300 100 4 false ∷ []

abbrev obstacle : GameObstacle ℤ
obstacle = record {
  message = obstacle_message;
  game_obstacle_data = record { x = pos 90; y = pos 100; radius = pos 12 };
}

abbrev pub game : Game ℤ ℤ
game = record {
  has_started = true;
  has_finished = false;
  last_unit_time = negsuc 0;
  game_units = pieces;
  game_obstacles = obstacle ∷ [];
  own_player_id = 0;
}

living-collide_all_example :
    (living 0 (collide_all whole_numbers pieces) ≡ true)
    ↔ ((living 0 pieces ≡ true) × ¬ IsEndangered whole_numbers 0 pieces)
living-collide_all_example = living-collide_all whole_numbers 0 pieces

proceed-Evolves_example :
    Evolves game.game_units (proceed whole_numbers (pos 1) (pos 10) (λ i. pos 10) game).0.game_units
proceed-Evolves_example = proceed-Evolves whole_numbers (pos 1) (pos 10) (λ i. pos 10) game

final_score-keep_example :
    let s = final_score whole_numbers game in
    (s.arrived_units + s.surviving_units ≡ length (keep is_living_sheep game.game_units))
    × (s.arrived_units ≡ length (keep is_arrived_sheep game.game_units))
    × (s.score ≡ s.arrived_units + length (keep is_living_sheep game.game_units))
final_score-keep_example = final_score-keep whole_numbers game

unit_by_index-get_elem?_example : unit_by_index 4 1 game ≡ (
    if not (game.own_player_id == id_none) && not (game.own_player_id == 4)
    then none
    else get_elem? (units_of 4 game.game_units) 1)
unit_by_index-get_elem?_example = unit_by_index-get_elem? 4 1 game (omega arith)

reflect_on_walls-within_example :
    let v = reflect_on_walls whole_numbers (piece 1 479 4 false) in
    (whole_numbers.lt v.x (near_wall whole_numbers) ≡ false)
    × (whole_numbers.lt (far_wall whole_numbers) v.x ≡ false)
    × (whole_numbers.lt v.y (near_wall whole_numbers) ≡ false)
    × (whole_numbers.lt (far_wall whole_numbers) v.y ≡ false)
reflect_on_walls-within_example =
    reflect_on_walls-within whole_numbers whole_numbers-IsOrdered (piece 1 479 4 false)

hit : collides_with_obstacle whole_numbers (piece 100 100 4 false) obstacle ≡ true
unfolding collides_with_obstacle ◌+ℤ◌ ◌-ℤ◌
hit = refl

separate_from-reflect_on_example :
    separate_from whole_numbers obstacle (piece 100 100 4 false)
    ≡ reflect_on whole_numbers obstacle (piece 100 100 4 false)
separate_from-reflect_on_example =
    separate_from-reflect_on whole_numbers whole_numbers-IsOrdered obstacle (piece 100 100 4 false)
      hit refl
