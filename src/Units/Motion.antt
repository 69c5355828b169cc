-- ===== src/Units/Motion.antt =====
-- Walls and obstacles: `reflectOnWalls`, `collidesWith` and `separateFrom` of uist-game/GameUnit.cpp.
use footscreen.Base.{◌≡◌, refl, true, false, arith}
use footscreen.Floats.{Floats, IsOrdered}
use footscreen.Units.{
  GameUnit, GameObstacle, reflect_axis, reflect_on_walls, collides_with_obstacle, separate_from,
  reflect_on, direction, near_wall, far_wall, distance, overlapping_distance, position,
  obstacle_position,
}

module _ {F D : Type 0} (f : Floats F D) (laws : IsOrdered f) where
  reflect_axis-within :
      (p v : F)
      → (f.lt (reflect_axis f p v).0 (near_wall f) ≡ false)
        × (f.lt (far_wall f) (reflect_axis f p v).0 ≡ false)
  unfolding reflect_axis
  reflect_axis-within p v = ground (
    arith,
    laws.lt_irrefl (near_wall f),
    laws.lt_irrefl (far_wall f),
    laws.lt_asymm (near_wall f) (far_wall f) laws.walls_lt,
  )

  -- After `reflectOnWalls` no coordinate of a unit is below 4 or above 476.
  pub reflect_on_walls-within :
      (u : GameUnit F)
      → let v = reflect_on_walls f u in
        (f.lt v.x (near_wall f) ≡ false)
        × (f.lt (far_wall f) v.x ≡ false)
        × (f.lt v.y (near_wall f) ≡ false)
        × (f.lt (far_wall f) v.y ≡ false)
  unfolding reflect_on_walls
  reflect_on_walls-within u =
      let (a, b) = reflect_axis-within u.x u.velocity.first in
      let (c, d) = reflect_axis-within u.y u.velocity.second in (a, b, c, d)

  -- `separateFrom`, which is called for an obstacle that the unit collides with, never moves the
  -- unit away from it: if the norm of the vector between them is the same in floats as in whole
  -- numbers, all that it does is to reflect the velocity.
  pub separate_from-reflect_on :
      (o : GameObstacle F) (u : GameUnit F)
      → collides_with_obstacle f u o ≡ true
      → f.narrow (f.norm_float (direction f u o).first (direction f u o).second)
        ≡ distance f (position f u) (obstacle_position f o)
      → separate_from f o u ≡ reflect_on f o u
  unfolding separate_from collides_with_obstacle
  separate_from-reflect_on o u hit same =
      let closer : f.le (overlapping_distance f o u) (f.lit 0) ≡ true =
        rw (overlapping_distance, same) (laws.sub_nonpos _ _ hit) in
      rw closer refl
