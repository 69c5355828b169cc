-- ===== src/Following.antt =====
-- `processFrame` of Application.cpp, from the touch on: which unit of the client's game is the nearest,
-- and what it is ordered to do.
pub mod Closest
use footscreen.Base.{ℕ, ◌%◌, Bool, true, false, Option, none, some, List, [], ◌∷◌, if◌then◌else◌}
use footscreen.Floats.{Floats}
use footscreen.Framework.{Result, fault, done, ◌then◌}
use footscreen.Units.{GameUnit}
use footscreen.Game.{Game, own_unit_by_index}
use footscreen.Game.Rendering.{Draw}
use footscreen.Touch.{Point}

-- `moveUnit` and `highlightUnit` of the client's game. Each ends in `send` of uist-game/NetworkClient.cpp:
-- it is `waits` where the loop there waits for a connection that is never up.
pub record Orders (F N : Type 0) : Type 0 where
  pub move_unit : ℕ → F → F → N → Result N
  pub highlight_unit : ℕ → Bool → N → Result N

-- What a frame uses of OpenCV and of the mathematical library, beyond the recognition of touch.
-- `distance dx dy` is `sqrt(pow(dx, 2) + pow(dy, 2))` as a `float`; `tenth` is 0.1.
pub record Screen (F I M : Type 0) : Type 0 where
  pub warp_perspective : M → I → I → I
  pub perspective_transform : M → Point F → Point F
  pub draw_circle : Point F → I → I
  pub draw : List Draw → I → I
  pub distance : F → F → F
  pub atan2 : F → F → F
  pub pi : F
  pub half_pi : F
  pub tenth : F

-- `minDistanceIndex`, where `none` is -1, and `minDistance`.
pub record Nearest (F : Type 0) : Type 0 where
  pub min_distance_index : Option ℕ
  pub min_distance : F

abbrev pub unit_numbers : List ℕ
unit_numbers = 0 ∷ 1 ∷ 2 ∷ 3 ∷ 4 ∷ []

module _ {F D I M N : Type 0} (f : Floats F D) (screen : Screen F I M) (orders : Orders F N) where
  open screen use {distance, atan2, tenth}

  -- From the touch to a unit, in the arithmetic of the code.
  abbrev pub distance_to : Point F → GameUnit F → F
  distance_to touch u = distance (f.sub touch.x u.x) (f.sub touch.y u.y)

  unfoldable pub closer : ℕ → F → Nearest F → Nearest F
  closer i current best = elim best.min_distance_index [
    | none ↦ record { min_distance_index = some i; min_distance = current }
    | some j ↦
        if f.lt current best.min_distance
        then record { min_distance_index = some i; min_distance = current }
        else best
  ]

  -- The loop over the units with some numbers.
  unfoldable pub find_nearest : Point F → Game F D → List ℕ → Nearest F → N → Result (Nearest F × N)
  unfolding own_unit_by_index closer ◌then◌
  find_nearest touch g [] best n = done (best, n)
  find_nearest touch g (i ∷ is) best n = elim (own_unit_by_index i g) [
    | none ↦ fault
    | some u ↦ orders.highlight_unit i false n then λ n'.
        find_nearest touch g is (closer i (distance_to touch u) best) n'
  ]

  -- The orders to the nearest unit. An index of -1 is 255 as a `uint8_t`.
  unfoldable pub order_nearest : Point F → Game F D → Nearest F → N → Result N
  unfolding own_unit_by_index ◌then◌
  order_nearest touch g best n =
      let i : ℕ = elim best.min_distance_index [ none ↦ 255 | some j ↦ j ] in
      elim (own_unit_by_index (i % 256) g) [
        | none ↦ fault
        | some u ↦
            orders.move_unit i (atan2 (f.sub u.y touch.y) (f.sub u.x touch.x)) tenth n then λ n'.
            orders.highlight_unit i true n'
      ]

  unfoldable pub follow_touch : Point F → Game F D → N → Result N
  unfolding find_nearest order_nearest ◌then◌
  follow_touch touch g n =
      find_nearest touch g unit_numbers
        (record { min_distance_index = none; min_distance = f.lit 0 }) n
      then λ found. order_nearest touch g found.0 found.1
