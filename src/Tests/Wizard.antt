-- ===== src/Tests/Wizard.antt =====
-- The calibration with points of two numbers and a number for a matrix.
use footscreen.Base.{
  ℕ, ◌%◌, ◌≡◌, Bool, true, false, not, ◌&&◌, Option, none, some, List, [], ◌∷◌, length, get_elem?,
  leb, ◌==◌, if◌then◌else◌, arith,
}
use footscreen.Calibration.{Calibration, circle_names, restart, loop}
use footscreen.Calibration.Frames.{TakesFour, presses, mouse_all, loop-mouse_all}

abbrev Point : Type 0
Point = ℕ × ℕ

abbrev point : ℕ → ℕ → Point
point x y = (x, y)

abbrev transform : List Point → List Point → Option ℕ
transform a b = if length a == 4 && length b == 4 then some 1 else none

transform-TakesFour : TakesFour transform
transform-TakesFour a b h k = ground arith

abbrev wizard : Calibration Point ℕ
wizard = record {
  has_terminated = true;
  is_projector_calibrated = true;
  number_of_projector_coordinates = 4;
  projector_coordinates = (1, 1) ∷ (2, 2) ∷ (3, 3) ∷ (4, 4) ∷ [];
  is_camera_calibrated = false;
  number_of_camera_coordinates = 0;
  camera_coordinates = [];
  physical_to_projector = 0;
  projector_to_physical = 0;
  physical_to_camera = 0;
  camera_to_physical = 0;
}

-- The events of a mouse, five of them a click.
abbrev events : List (Bool × Point)
events =
    (true, (10, 470))
    ∷ (true, (600, 470))
    ∷ (false, (605, 300))
    ∷ (true, (610, 20))
    ∷ (true, (15, 20))
    ∷ (true, (100, 300))
    ∷ (false, (100, 301))
    ∷ []

loop-mouse_all_example :
    let k = length (presses events) in
    (d : Calibration Point ℕ) × (loop point transform (mouse_all events (restart wizard))
      ≡ some (d, (if leb 8 k then none else get_elem? circle_names (k % 4)), not (leb 8 k)))
    × (d.has_terminated ≡ leb 8 k)
loop-mouse_all_example = loop-mouse_all point transform transform-TakesFour events wizard
