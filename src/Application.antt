-- ===== src/Application.antt =====
-- Application.h and Application.cpp: the frames of the program, which put the camera, the touch, the
-- client's game and the keys together. Windows have no state here. A null `m_gameClient` and one
-- without a game are one case, since no code that is modelled tells them apart.
pub mod Ending
pub mod Quit
pub mod Turns
pub mod Start
use footscreen.Base.{
  ℕ, Bool, true, false, not, Option, none, some, List, [], ◌∷◌, ◌==◌, if◌then◌else◌, is_some, ◌%◌,
}
use footscreen.Floats.{Floats}
use footscreen.Calibration.{Calibration, loop}
use footscreen.Units.{GameUnit}
use footscreen.Game.{Game, own_unit_by_index}
use footscreen.Game.Rendering.{Draw, render}
use footscreen.GameServer.{GameServer, start_game}
use footscreen.Framework.{Result, fault, thrown, done, ◌then◌, of_option, DepthCameraException}
use footscreen.Framework.Skeleton.{SkeletonTracker, Drawing, draw_users}
use footscreen.Following.{Orders, Screen, follow_touch}
use footscreen.Touch.{
  Point, Vision, Touch, flip_horizontally, acquire, calibrate_touch, detect_touch,
}

-- The images in the files color.png, depth.png and output.png.
pub record Screenshots (I : Type 0) : Type 0 where
  pub color : I
  pub depth : I
  pub output : I

-- The pointers that may be null are options. `screenshots` are the files, if the program has written
-- them. `network` is what `moveUnit` and `highlightUnit` of the
-- client's game send to.
pub record Application (F D I M W G C N : Type 0) : Type 0 where
  pub is_finished : Bool
  pub touch : Touch W I D
  pub output_image : I
  pub game_image : I
  pub calibration : Calibration (Point F) M
  pub game_client : Option (Game F D)
  pub game_server : Option (GameServer F D C)
  pub skeleton_tracker : Option (SkeletonTracker G)
  pub network : N
  pub screenshots : Option (Screenshots I)

-- The characters of the keys.
abbrev pub key_quit : ℕ
key_quit = 113

-- `get_frame` is `DepthCamera::getFrame`; `transform` is `cv::getPerspectiveTransform`, as for
-- `Calibration`.
module _ {F D I M W G C N S J : Type 0} (f : Floats F D) (v : Vision I S F D)
    (screen : Screen F I M) (orders : Orders F N) (get_frame : W → I → I → Result (W × I × I))
    (point : ℕ → ℕ → Point F) (transform : List (Point F) → List (Point F) → Option M)
    (drawing : Drawing G J (Point F) I) where
  unfoldable pub warp_image : Application F D I M W G C N → Application F D I M W G C N
  warp_image a = record a {
    output_image =
        screen.warp_perspective a.calibration.physical_to_projector a.game_image a.output_image;
  }

  unfoldable pub process_frame : Application F D I M W G C N → Result (Application F D I M W G C N)
  unfolding warp_image flip_horizontally detect_touch follow_touch
  process_frame a =
      let output = (warp_image a).output_image in
      detect_touch f v get_frame (flip_horizontally f v a.touch) then λ (t, center).
      let touch = screen.perspective_transform a.calibration.camera_to_physical center in
      elim a.game_client [
        | none ↦ fault
        | some g ↦ follow_touch f screen orders touch g a.network then λ n.
            done
              (record a { touch = t; output_image = screen.draw_circle touch output; network = n })
      ]

  unfoldable pub process_skeletons : Application F D I M W G C N → Application F D I M W G C N
  unfolding draw_users
  process_skeletons a = elim a.skeleton_tracker [
    | none ↦ a
    | some t ↦ record a {
      touch = record a.touch {
        bgr_image = draw_users drawing t.user_generator t.tracked_users a.touch.bgr_image;
      };
    }
  ]

  -- An order to the client's game, if there is one; it may wait for ever.
  unfoldable pub send_order :
      (N → Result N) → Application F D I M W G C N → Result (Application F D I M W G C N)
  send_order order a = elim a.game_client [
    | none ↦ done a
    | some g ↦ order a.network then λ n. done (record a { network = n })
  ]

  unfoldable pub start_server : Application F D I M W G C N → Application F D I M W G C N
  unfolding start_game
  start_server a = elim a.game_server [
    | none ↦ a
    | some s ↦ record a { game_server = some (start_game s) }
  ]

  unfoldable pub make_screenshots : Application F D I M W G C N → Application F D I M W G C N
  make_screenshots a = record a {
    screenshots = some (record {
      color = a.touch.bgr_image;
      depth = a.touch.depth_image;
      output = a.output_image;
    });
  }

  -- The `switch` on the key, from the second case on.
  unfoldable pub handle_other_key :
      ℕ → Application F D I M W G C N → Result (Application F D I M W G C N)
  unfolding make_screenshots start_server calibrate_touch send_order
  handle_other_key key a =
      let move = λ (angle strength : F). send_order (orders.move_unit 0 angle strength) a in
      let highlight = λ (b : Bool). send_order (orders.highlight_unit 0 b) a in
      if key == 112
      then done (make_screenshots a)
      else if key == 114
      then done (start_server a)
      else if key == 119
      then move screen.half_pi (f.lit 1)
      else if key == 97
      then move screen.pi (f.lit 1)
      else if key == 115
      then move (f.mul (f.lit 3) screen.half_pi) (f.lit 1)
      else if key == 100
      then move (f.lit 0) (f.lit 1)
      else if key == 32
      then move (f.lit 0) (f.lit 0)
      else if key == 104
      then highlight true
      else if key == 117
      then highlight false
      else if key == 99
      then (calibrate_touch f v get_frame a.touch then λ t. done (record a { touch = t }))
      else done a

  unfoldable pub handle_key : ℕ → Application F D I M W G C N → Result (Application F D I M W G C N)
  unfolding handle_other_key
  handle_key key a =
      if key == key_quit then done (record a { is_finished = true }) else handle_other_key key a

  -- The part of `loop` from the calibration wizard.
  unfoldable pub run_calibration :
      Application F D I M W G C N → Result (Application F D I M W G C N)
  unfolding acquire loop
  run_calibration a =
      (if is_some a.touch.depth_camera then acquire f v get_frame a.touch else done a.touch)
      then λ t. of_option (loop point transform a.calibration) then λ (c, name, shown).
          done (record a { touch = t; calibration = c })

  -- The part of `loop` after the keys.
  unfoldable pub run_frame : Application F D I M W G C N → Result (Application F D I M W G C N)
  unfolding render acquire process_frame process_skeletons
  run_frame a =
      let game_image : I = elim a.game_client [
        | none ↦ a.game_image
        | some g ↦ screen.draw (render f g) a.game_image
      ] in
      let b = record a { game_image = game_image } in
      (if is_some b.touch.depth_camera
        then (acquire f v get_frame b.touch then λ t. process_frame (record b { touch = t }))
        else done b)
      then λ c. done (process_skeletons c)

  unfoldable pub run_loop : ℕ → Application F D I M W G C N → Result (Application F D I M W G C N)
  unfolding run_calibration handle_key run_frame
  run_loop key a =
      if not a.calibration.has_terminated
      then run_calibration (if key == key_quit then record a { is_finished = true } else a)
      else (handle_key key a then λ b. if b.is_finished then done b else run_frame b)

  -- `main`, for the keys that `cv::waitKey` returns: with the state at the end, the keys that are
  -- left, or the exception that ends the program with a failure.
  unfoldable pub run_main :
      List ℕ → Application F D I M W G C N → Result (Application F D I M W G C N × List ℕ)
  unfolding run_loop
  run_main [] a = done (a, [])
  run_main (key ∷ keys) a =
      if a.is_finished then done (a, key ∷ keys) else (run_loop key a then run_main keys)
