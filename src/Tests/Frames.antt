-- ===== src/Tests/Frames.antt =====
-- Frames on images that are numbers.
use footscreen.Base.{
  ℕ, suc, zero, ◌+◌, ◌*◌, ◌/◌, ◌<◌, ◌≡◌, refl, true, false, none, some, List, [], ◌∷◌, ◌++◌, map,
  length, replicate, All, arith,
}
use footscreen.Base.Int.{ℤ, pos, ◌+ℤ◌}
use footscreen.Calibration.{Calibration}
use footscreen.Units.{GameUnit}
use footscreen.Game.{Game, own_unit_by_index, unit_by_index, find_index}
use footscreen.Framework.Skeleton.{Drawing}
use footscreen.Touch.{Point, Vision, consider_all, no_ellipse}
use footscreen.Touch.Largest.{IsIn, IsMaximal, ellipses, consider_all-IsMaximal}
use footscreen.Framework.{done}
use footscreen.Following.{Screen, unit_numbers, follow_touch}
use footscreen.Following.Closest.{
  Order, recorded, highlighted, far, dark, away, follow_touch-unit_numbers,
}
use footscreen.Application.{Application}
use footscreen.Tests.Data.{byte, magnitude, whole_numbers, lt_irrefl, lt_trans}
use footscreen.Tests.Play.{piece, game}

abbrev pub at : ℕ → ℕ → Point ℤ
at a b = record { x = pos a; y = pos b }

-- Contours of twelve, three and fifteen points.
abbrev contours : List (List ℕ)
contours = replicate 12 5 ∷ replicate 3 90 ∷ replicate 15 6 ∷ []

abbrev pub vision : Vision ℕ ℕ ℤ ℤ
vision = record {
  flip = λ a. a;
  amplify = λ k a. k * a;
  to_bytes = λ a. a / 256;
  absdiff = λ a b. a + b;
  median_blur = λ k a. a;
  to_zero_above = λ k a. a;
  to_zero_below = λ k a. a;
  find_contours = λ a. contours;
  fit_ellipse =
      λ c. record { center = at (length c) 100; width = pos (length c); height = pos (byte 0 c) };
  maximum = pos;
}

consider_all-IsMaximal_example :
    let last = consider_all whole_numbers vision contours (no_ellipse whole_numbers vision) in
    IsIn whole_numbers vision last
      (no_ellipse whole_numbers vision ∷ ellipses whole_numbers vision contours)
    × IsMaximal whole_numbers vision last
        (no_ellipse whole_numbers vision ∷ ellipses whole_numbers vision contours)
consider_all-IsMaximal_example =
    consider_all-IsMaximal whole_numbers vision lt_trans lt_irrefl contours
      (no_ellipse whole_numbers vision)

abbrev pub screen : Screen ℤ ℕ ℕ
screen = record {
  warp_perspective = λ m a b. a;
  perspective_transform = λ m p. p;
  draw_circle = λ p a. a;
  draw = λ ds a. a + length ds;
  distance = λ a b. magnitude a +ℤ magnitude b;
  atan2 = λ a b. a;
  pi = pos 3;
  half_pi = pos 1;
  tenth = pos 0;
}

abbrev unit : ℕ → GameUnit ℤ
unit i = piece (100 + 10 * i) 100 4 false

abbrev five : Game ℤ ℤ
five = record game { game_units = map unit unit_numbers; own_player_id = 4 }

five_units : (i : ℕ) → i < 5 → own_unit_by_index i five ≡ some (unit i)
unfolding own_unit_by_index unit_by_index find_index
five_units zero h = refl
five_units (suc zero) h = refl
five_units (suc (suc zero)) h = refl
five_units (suc (suc (suc zero))) h = refl
five_units (suc (suc (suc (suc zero)))) h = refl
five_units (suc (suc (suc (suc (suc i))))) h = absurd (omega arith)

follow_touch-unit_numbers_example :
    let touch = at 117 100 in
    let dist = far whole_numbers screen touch five unit five_units in
    (k : ℕ) × (k < 5)
    × (follow_touch whole_numbers screen recorded touch five []
        ≡ done (
            []
            ++ (map (dark whole_numbers screen touch five unit five_units) unit_numbers
                ++ away whole_numbers screen touch five unit five_units k
                  ∷ highlighted k true
                  ∷ [])))
    × All (λ i. whole_numbers.lt (dist i) (dist k) ≡ false) unit_numbers
follow_touch-unit_numbers_example =
    follow_touch-unit_numbers whole_numbers screen (at 117 100) five unit five_units lt_trans
      lt_irrefl []

abbrev pub drawing : Drawing ℕ ℕ (Point ℤ) ℕ
drawing = record {
  joint_position = λ user joint w. user;
  is_unsure = λ j. false;
  project = λ j. at j j;
  circle = λ p a. a;
  line = λ p q a. a;
}

abbrev done_calibration : Calibration (Point ℤ) ℕ
done_calibration = record {
  has_terminated = true;
  is_projector_calibrated = true;
  number_of_projector_coordinates = 4;
  projector_coordinates = at 1 1 ∷ at 2 1 ∷ at 2 2 ∷ at 1 2 ∷ [];
  is_camera_calibrated = true;
  number_of_camera_coordinates = 4;
  camera_coordinates = at 1 1 ∷ at 2 1 ∷ at 2 2 ∷ at 1 2 ∷ [];
  physical_to_projector = 0;
  projector_to_physical = 0;
  physical_to_camera = 0;
  camera_to_physical = 0;
}

abbrev application : Application ℤ ℤ ℕ ℕ ℕ ℕ ℕ (List (Order ℤ))
application = record {
  is_finished = false;
  touch = record {
    depth_camera = some 0;
    bgr_image = 0;
    depth_image = 0;
    calibration_image = 0;
    is_touch_calibrated = false;
    is_touching = false;
    ground_value = pos 0;
  };
  output_image = 0;
  game_image = 0;
  calibration = done_calibration;
  game_client = some five;
  game_server = none;
  skeleton_tracker = none;
  network = [];
  screenshots = none;
}
