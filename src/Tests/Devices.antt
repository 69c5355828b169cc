-- ===== src/Tests/Devices.antt =====
-- A user generator and a motor with little state.
use footscreen.Base.{
  ℕ, suc, arith, ◌≡◌, refl, Bool, true, false, not, ◌&&◌, ◌||◌, List, [], ◌∷◌, ◌==◌, if◌then◌else◌,
}
use footscreen.Base.Int.{◌*ℤ◌, ℤ, negsuc}
use footscreen.Framework.{done, ◌then◌}
use footscreen.Framework.Camera.{Mat, Bgr, Context, get_frame}
use footscreen.Framework.Camera.Filling.{InPlace, get_frame-InPlace}
use footscreen.Framework.Skeleton.{
  UserGenerator, SkeletonTracker, UserEvent, exit_user, calibration_end, re_enter_user,
  handle_users,
}
use footscreen.Framework.Skeleton.Users.{IsInStep, handle_users-IsInStep}
use footscreen.Framework.Motor.{Usb, get_angle}
use footscreen.Framework.Motor.Angle.{low_byte, read_back, get_angle-low_byte}

-- The state is whether each user is tracked.
abbrev generator : UserGenerator (ℕ → Bool)
generator = record {
  start_pose_detection = λ u w. w;
  stop_pose_detection = λ u w. w;
  request_calibration = λ u w. w;
  start_tracking = λ u w v. (v == u) || w v;
  stop_tracking = λ u w v. not (v == u) && w v;
  is_calibrated = λ u w. u == 7;
}

abbrev tracks : ℕ → (ℕ → Bool) → Bool
tracks v w = w v

abbrev nobody : SkeletonTracker (ℕ → Bool)
nobody = record { user_generator = λ v. false; tracked_users = [] }

abbrev events : List UserEvent
events =
    calibration_end 7 true
    ∷ calibration_end 3 true
    ∷ exit_user 7
    ∷ calibration_end 9 false
    ∷ re_enter_user 7
    ∷ []

handle_users-IsInStep_example : IsInStep tracks (handle_users generator events nobody)
handle_users-IsInStep_example =
    handle_users-IsInStep generator tracks
      (record {
        tracks-start = λ u v w. refl;
        tracks-stop = λ u v w. refl;
        tracks-start_pose = λ u v w. refl;
        tracks-stop_pose = λ u v w. refl;
        tracks-request = λ u v w. refl;
      })
      events nobody (record { is_set = tt; same = λ v. refl })

-- The state is the value that was sent last to turn the motor.
abbrev usb : Usb ℤ
usb = record {
  status_ok = 0;
  usb_already_init = 1;
  usb_device_not_found = 2;
  usb_device_not_valid = 3;
  device_not_connected = 4;
  control_type_vendor = 64;
  init = λ w. (0, w);
  enumerate_devices = λ w. (0, 1, w);
  open_first_device = λ w. (0, w);
  send_control = λ type request value index w. (0, if request == 49 then value else w);
  receive_control = λ type request value index w. (0, (λ k. if k == 8 then low_byte w else 0), w);
  close_device = λ w. (0, w);
}

get_angle-low_byte_example :
    (w' : ℤ) × (get_angle usb (negsuc 41) ≡ done (read_back (negsuc 20), w'))
unfolding ◌*ℤ◌
get_angle-low_byte_example = get_angle-low_byte usb (negsuc 41) (negsuc 20) (omega arith) refl refl

abbrev dark_image : Mat ℕ
dark_image = record { rows = 3; cols = 4; pixel = λ j i. 0 }

abbrev black_image : Mat Bgr
black_image = record { rows = 2; cols = 2; pixel = λ j i. (0, 0, 0) }

-- A depth image of two rows of three, and a picture of one row of two.
abbrev context : Context ℕ
context = record {
  status_ok = 0;
  wait_and_update_all = λ w. (0, suc w);
  depth_meta_data = λ w. (3, 2, 1 ∷ 2 ∷ 3 ∷ 4 ∷ 5 ∷ w ∷ []);
  image_meta_data = λ w. (
    2,
    1,
    record { red = 1; green = 2; blue = 3 } ∷ record { red = 4; green = 5; blue = 6 } ∷ [],
  );
}

get_frame-InPlace_example :
    (bgr' : Mat Bgr) × (depth' : Mat ℕ) × (get_frame context 5 black_image dark_image
      ≡ done (6, bgr', depth'))
    × InPlace ((1 ∷ 2 ∷ 3 ∷ []) ∷ (4 ∷ 5 ∷ 6 ∷ []) ∷ []) depth'
    × InPlace (((3, 2, 1) ∷ (6, 5, 4) ∷ []) ∷ []) bgr'
get_frame-InPlace_example =
    get_frame-InPlace context 5 6 black_image dark_image refl 3 2 2 1 (1 ∷ 2 ∷ 3 ∷ 4 ∷ 5 ∷ 6 ∷ [])
      (record { red = 1; green = 2; blue = 3 } ∷ record { red = 4; green = 5; blue = 6 } ∷ [])
      ((1 ∷ 2 ∷ 3 ∷ []) ∷ (4 ∷ 5 ∷ 6 ∷ []) ∷ []) (((3, 2, 1) ∷ (6, 5, 4) ∷ []) ∷ []) refl refl
      (record {
        data_eq = refl;
        even = (refl, (refl, tt));
        length-rows = refl;
        height_le = omega arith;
        width_le = omega arith;
        width_lt = omega arith;
        height_lt = omega arith;
      })
      (record {
        data_eq = refl;
        even = (refl, tt);
        length-rows = refl;
        height_le = omega arith;
        width_le = omega arith;
        width_lt = omega arith;
        height_lt = omega arith;
      })
