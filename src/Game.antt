-- ===== src/Game.antt =====
-- uist-game/Game.h and Game.cpp: the state of a game and what it does. The timers are read by the
-- caller and passed in.
pub mod Lookup
pub mod Level
pub mod Collisions
pub mod Successor
pub mod Progress
pub mod Scoring
pub mod Updates
pub mod Sending
pub mod Moving
pub mod Rendering
use footscreen.Base.{
  ℕ, zero, suc, ◌+◌, ◌*◌, ◌%◌, Bool, true, false, not, ◌&&◌, ◌||◌, Option, none, some, List, [],
  ◌∷◌, ◌++◌, map, length, get_elem?, set, ◌==◌, if◌then◌else◌, ◌>>=◌,
}
use footscreen.MessageData.{MessageData, id_none}
use footscreen.Floats.{Floats}
use footscreen.Message.{Message}
use footscreen.Units.{
  GameUnit, GameObstacle, set_arrived, set_living, move, reflect_on_walls, collides_with_unit,
  collides_with_obstacle, separate_from, unit_radius,
}

pub record Game (F D : Type 0) : Type 0 where
  pub has_started : Bool
  pub has_finished : Bool
  pub last_unit_time : D
  pub game_units : List (GameUnit F)
  pub game_obstacles : List (GameObstacle F)
  pub own_player_id : ℕ

-- What is printed when a game finishes.
pub record Score (D : Type 0) : Type 0 where
  pub arrived_units : ℕ
  pub surviving_units : ℕ
  pub last_arrival : Option D
  pub score : ℕ

module _ {F : Type 0} where
  unfoldable pub unit_by_id : ℕ → List (GameUnit F) → Option (GameUnit F)
  unit_by_id id [] = none
  unit_by_id id (u ∷ us) = if u.message.message_id == id then some u else unit_by_id id us

  unfoldable pub obstacle_by_id : ℕ → List (GameObstacle F) → Option (GameObstacle F)
  obstacle_by_id id [] = none
  obstacle_by_id id (o ∷ os) = if o.message.message_id == id then some o else obstacle_by_id id os

  -- The loop of `unitByIndex`; `current` is a `uint8_t`.
  unfoldable pub find_index : ℕ → ℕ → ℕ → List (GameUnit F) → Option (GameUnit F)
  find_index player index current [] = none
  find_index player index current (u ∷ us) =
      if not (u.owner == player)
      then find_index player index current us
      else if current == index
      then some u
      else find_index player index ((current + 1) % 256) us

  -- The two counting loops at the end of a game.
  unfoldable pub is_arrived_sheep : GameUnit F → Bool
  is_arrived_sheep u = not u.is_hunting && u.has_arrived && u.is_living

  unfoldable pub is_surviving_sheep : GameUnit F → Bool
  is_surviving_sheep u = not u.is_hunting && not u.has_arrived && u.is_living

  unfoldable pub count_units : (GameUnit F → Bool) → ℕ → List (GameUnit F) → ℕ
  count_units p n [] = n
  count_units p n (u ∷ us) = count_units p (if p u then n + 1 else n) us

module _ {F D : Type 0} where
  unfoldable pub unit_by_index : ℕ → ℕ → Game F D → Option (GameUnit F)
  unfolding find_index
  unit_by_index player index g =
      if not (g.own_player_id == id_none) && not (g.own_player_id == player)
      then none
      else find_index player index 0 g.game_units

  unfoldable pub own_unit_by_index : ℕ → Game F D → Option (GameUnit F)
  unfolding unit_by_index
  own_unit_by_index index g = unit_by_index g.own_player_id index g

  unfoldable pub start : Game F D → Game F D
  start g = record g { has_started = true }

  unfoldable pub reset : Game F D → Game F D
  reset g = record g { game_units = []; game_obstacles = [] }

  unfoldable pub stop : Game F D → Game F D
  unfolding reset
  stop g = reset (record g { has_started = false })

module _ {F D : Type 0} (f : Floats F D) where
  open f use {lt, le, sub, lit, d_lt, d_lit, d_minus_one}

  unfoldable pub new_game : Game F D
  new_game = record {
    has_started = false;
    has_finished = false;
    last_unit_time = d_minus_one;
    game_units = [];
    game_obstacles = [];
    own_player_id = id_none;
  }

  unfoldable pub final_score : Game F D → Score D
  unfolding count_units is_arrived_sheep is_surviving_sheep
  final_score g =
      let arrived = count_units is_arrived_sheep 0 g.game_units in
      let surviving = count_units is_surviving_sheep 0 g.game_units in
      record {
        arrived_units = arrived;
        surviving_units = surviving;
        last_arrival = if d_lt (d_lit 0) g.last_unit_time then some g.last_unit_time else none;
        score = 2 * arrived + surviving;
      }

  -- Whether a unit that has just moved arrives.
  unfoldable pub arrives : GameUnit F → Bool
  arrives u = not u.has_arrived && not u.is_hunting && le (sub (lit 480) (unit_radius f)) u.y

  unfoldable pub advance : F → GameUnit F → GameUnit F
  unfolding arrives
  advance time u =
      let moved = reflect_on_walls f (move f time u) in
      if arrives moved then set_arrived true moved else moved

  -- The first loop of `proceed`; `clock i` is the reading of the duration timer at unit `i`.
  unfoldable pub advance_all : F → (ℕ → D) → ℕ → D → List (GameUnit F) → List (GameUnit F) × D
  unfolding advance
  advance_all time clock i last [] = ([], last)
  advance_all time clock i last (u ∷ us) =
      let moved = reflect_on_walls f (move f time u) in
      let (rest, end) =
        advance_all time clock (i + 1) (if arrives moved then clock i else last) us in
      (advance time u ∷ rest, end)

  -- The second loop: one unit against the obstacles, in order.
  unfoldable pub separate_all : List (GameObstacle F) → GameUnit F → GameUnit F
  separate_all [] u = u
  separate_all (o ∷ os) u =
      separate_all os (if not (collides_with_obstacle f u o) then u else separate_from f o u)

  -- The third loop.
  unfoldable pub killed : GameUnit F → GameUnit F
  killed u = if not u.is_hunting then set_living false u else u

  unfoldable pub kill : ℕ → List (GameUnit F) → List (GameUnit F)
  unfolding killed
  kill i [] = []
  kill zero (u ∷ us) = killed u ∷ us
  kill (suc i) (u ∷ us) = u ∷ kill i us

  unfoldable pub colliding : ℕ → ℕ → List (GameUnit F) → Bool
  colliding i j us = elim (get_elem? us i) [
    | none ↦ false
    | some u ↦ elim (get_elem? us j) [ none ↦ false | some v ↦ collides_with_unit f u v ]
  ]

  unfoldable pub collide : ℕ → ℕ → List (GameUnit F) → List (GameUnit F)
  unfolding colliding kill
  collide i j us = if i == j then us else if not (colliding i j us) then us else kill j (kill i us)

  -- `n` rounds from `j`, and from `i`, on.
  unfoldable pub collide_row : ℕ → ℕ → ℕ → List (GameUnit F) → List (GameUnit F)
  unfolding collide
  collide_row i zero j us = us
  collide_row i (suc n) j us = collide_row i n (j + 1) (collide i j us)

  unfoldable pub collide_rows : ℕ → ℕ → ℕ → List (GameUnit F) → List (GameUnit F)
  unfolding collide_row
  collide_rows m zero i us = us
  collide_rows m (suc n) i us = collide_rows m n (i + 1) (collide_row i m 0 us)

  unfoldable pub collide_all : List (GameUnit F) → List (GameUnit F)
  unfolding collide_rows
  collide_all us = collide_rows (length us) (length us) 0 us

  -- The three loops.
  unfoldable pub play : F → (ℕ → D) → Game F D → Game F D
  unfolding advance_all separate_all collide_all
  play time clock g =
      let (moved, last) = advance_all time clock 0 g.last_unit_time g.game_units in
      record g {
        game_units = collide_all (map (separate_all g.game_obstacles) moved);
        last_unit_time = last;
      }

  -- `time` is the time since the last call, `duration` since the start. The score is printed once.
  unfoldable pub proceed : F → D → (ℕ → D) → Game F D → Game F D × Option (Score D)
  unfolding play final_score
  proceed time duration clock g =
      if not g.has_started
      then (g, none)
      else let ends = d_lt (d_lit 60) duration && not g.has_finished in
        let printed = if ends then some (final_score g) else none in
        if ends || g.has_finished
        then (record g { has_finished = true }, printed)
        else (play time clock g, printed)
