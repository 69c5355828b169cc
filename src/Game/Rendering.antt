-- ===== src/Game/Rendering.antt =====
-- What `render` of uist-game/Game.cpp, GameUnit.cpp and GameObstacle.cpp draws, as the calls of
-- OpenCV in order. What a call does to an image is not modelled.
use footscreen.Base.{ℕ, not, ◌&&◌, List, [], ◌∷◌, ◌++◌, ◌==◌, if◌then◌else◌}
use footscreen.Base.Int.{ℤ, pos}
use footscreen.Floats.{Floats}
use footscreen.MessageData.{id_first_client}
use footscreen.Units.{GameUnit, GameObstacle, unit_radius}
use footscreen.Game.{Game}

-- `cv::Scalar`: blue, green and red.
pub record Color : Type 0 where
  pub blue : ℕ
  pub green : ℕ
  pub red : ℕ

abbrev color : ℕ → ℕ → ℕ → Color
color b g r = record { blue = b; green = g; red = r }

abbrev pub highlight_color : Color
highlight_color = color 224 224 224

-- Two corners; a center and a radius; a position and a number. All are filled.
pub data Draw : Type 0 where
  rectangle : ℤ → ℤ → ℤ → ℤ → Color → Draw
  circle : ℤ → ℤ → ℤ → Color → Draw
  number_text : ℤ → ℤ → ℕ → Color → Draw

module _ {F D : Type 0} (f : Floats F D) where
  open f use {lit, add, sub, div, truncate}

  unfoldable pub unit_color : GameUnit F → Color
  unit_color u =
      if u.has_arrived
      then color 255 255 255
      else if not u.is_living
      then color 0 0 0
      else if u.owner == id_first_client
      then color 192 160 0
      else color 0 64 192

  unfoldable pub render_unit : GameUnit F → List Draw
  unfolding unit_color
  render_unit u =
      (if u.is_highlighted && u.is_living && not u.has_arrived
        then circle (truncate u.x) (truncate u.y) (truncate (add (unit_radius f) (lit 4)))
            highlight_color
          ∷ []
        else [])
      ++ circle (truncate u.x) (truncate u.y) (truncate (unit_radius f)) (unit_color u)
        ∷ number_text (truncate (sub u.x (div (unit_radius f) (lit 2))))
            (truncate (add u.y (div (unit_radius f) (lit 2)))) u.number (color 255 255 255)
        ∷ []

  unfoldable pub render_obstacle : GameObstacle F → List Draw
  render_obstacle o =
      circle (truncate o.x) (truncate o.y) (truncate o.radius) (color 128 128 128) ∷ []

  unfoldable pub render_units : List (GameUnit F) → List Draw
  unfolding render_unit
  render_units [] = []
  render_units (u ∷ us) = render_unit u ++ render_units us

  unfoldable pub render_obstacles : List (GameObstacle F) → List Draw
  unfolding render_obstacle
  render_obstacles [] = []
  render_obstacles (o ∷ os) = render_obstacle o ++ render_obstacles os

  unfoldable pub render : Game F D → List Draw
  unfolding render_units render_obstacles
  render g =
      rectangle (pos 0) (pos 0) (pos 480) (pos 480) (color 32 32 32)
        ∷ rectangle (pos 0) (pos 472) (pos 480) (pos 480) (color 32 128 64)
        ∷ render_obstacles g.game_obstacles
      ++ render_units g.game_units
