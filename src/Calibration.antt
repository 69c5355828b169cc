-- ===== src/Calibration.antt =====
-- Calibration.h and Calibration.cpp: the wizard that is clicked through before a game. `P` is the
-- type of points, `M` that of matrices; `transform` is `cv::getPerspectiveTransform`, where `none` is
-- the exception that it throws. `none` is also a name read out of bounds. Windows and images have no
-- state here.
pub mod Four
pub mod Clicks
pub mod Frames
use footscreen.Base.{
  ℕ, ◌+◌, ◌≡◌, Bool, true, false, not, Option, none, some, List, [], ◌∷◌, ◌++◌, length, get_elem?,
  ltb, leb, if◌then◌else◌, ◌>>=◌, is_some,
}

pub data CircleName : Type 0 where
  bottom_left bottom_right top_right top_left : CircleName

abbrev pub circle_names : List CircleName
circle_names = bottom_left ∷ bottom_right ∷ top_right ∷ top_left ∷ []

pub record Calibration (P M : Type 0) : Type 0 where
  pub has_terminated : Bool
  pub is_projector_calibrated : Bool
  pub number_of_projector_coordinates : ℕ
  pub projector_coordinates : List P
  pub is_camera_calibrated : Bool
  pub number_of_camera_coordinates : ℕ
  pub camera_coordinates : List P
  pub physical_to_projector : M
  pub projector_to_physical : M
  pub physical_to_camera : M
  pub camera_to_physical : M

module _ {P M : Type 0} where
  unfoldable pub restart : Calibration P M → Calibration P M
  restart c = record c {
    has_terminated = false;
    is_projector_calibrated = false;
    is_camera_calibrated = false;
    number_of_projector_coordinates = 0;
    number_of_camera_coordinates = 0;
    projector_coordinates = [];
    camera_coordinates = [];
  }

  unfoldable pub handle_mouse_click : P → Calibration P M → Calibration P M
  handle_mouse_click p c =
      if ltb c.number_of_projector_coordinates 4
      then record c {
        projector_coordinates = c.projector_coordinates ++ p ∷ [];
        number_of_projector_coordinates = c.number_of_projector_coordinates + 1;
        is_projector_calibrated =
            if leb 4 (c.number_of_projector_coordinates + 1)
            then true
            else c.is_projector_calibrated;
      }
      else if ltb c.number_of_camera_coordinates 4
      then record c {
        camera_coordinates = c.camera_coordinates ++ p ∷ [];
        number_of_camera_coordinates = c.number_of_camera_coordinates + 1;
        is_camera_calibrated =
            if leb 4 (c.number_of_camera_coordinates + 1) then true else c.is_camera_calibrated;
      }
      else c

  -- The function that the window calls; `pressed` says that the event is the left button going down.
  -- The pointer to the wizard is its `this`, which is never null.
  unfoldable pub mouse_callback : Bool → P → Calibration P M → Calibration P M
  unfolding handle_mouse_click
  mouse_callback pressed p c = if pressed then handle_mouse_click p c else c

  -- The circle that is asked for, in the text that is drawn. The image of the camera has the size of
  -- the wizard's.
  unfoldable pub calibrate_projector : Calibration P M → Option CircleName
  calibrate_projector c = get_elem? circle_names c.number_of_projector_coordinates

  unfoldable pub calibrate_camera : Calibration P M → Option CircleName
  calibrate_camera c = get_elem? circle_names c.number_of_camera_coordinates

-- `point` makes a point of its two coordinates.
module _ {P M : Type 0} (point : ℕ → ℕ → P) (transform : List P → List P → Option M) where
  abbrev pub target_points : List P
  target_points = point 0 480 ∷ point 480 480 ∷ point 480 0 ∷ point 0 0 ∷ []

  unfoldable pub compute_homography : Calibration P M → Option (Calibration P M)
  compute_homography c =
      transform c.projector_coordinates target_points >>= λ projector_to_physical.
      transform target_points c.projector_coordinates >>= λ physical_to_projector.
      transform target_points c.camera_coordinates >>= λ physical_to_camera.
      transform c.camera_coordinates target_points >>= λ camera_to_physical. some (record c {
        projector_to_physical = projector_to_physical;
        physical_to_projector = physical_to_projector;
        physical_to_camera = physical_to_camera;
        camera_to_physical = camera_to_physical;
      })

  -- The circle that the wizard asks for, if it does.
  unfoldable pub calibrate : Calibration P M → Option (Calibration P M × Option CircleName)
  unfolding compute_homography calibrate_projector calibrate_camera
  calibrate c =
      if not c.is_projector_calibrated
      then (calibrate_projector c >>= λ name. some (c, some name))
      else if not c.is_camera_calibrated
      then (calibrate_camera c >>= λ name. some (c, some name))
      else (compute_homography c >>= λ d. some (record d { has_terminated = true }, none))

  -- One frame: also whether the image of the wizard is shown.
  unfoldable pub loop : Calibration P M → Option (Calibration P M × Option CircleName × Bool)
  unfolding calibrate
  loop c = calibrate c >>= λ (d, name). some (d, name, not d.has_terminated)
