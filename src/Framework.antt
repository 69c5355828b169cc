-- ===== src/Framework.antt =====
-- framework/DepthCameraException.*: what the classes of framework/ throw, and the result of a call
-- that may throw. A status is what OpenNI returns.
pub mod Returns
pub mod Skeleton
pub mod Motor
pub mod Camera
pub mod Construction
use footscreen.Base.{ℕ, Option, none, some}

-- The descriptions in the messages of the exceptions.
pub data Description : Type 0 where
  could_not_acquire_frame : Description
  usb_could_not_be_initialized no_kinect_motor_found could_not_open_connection : Description
  could_not_initialize_motor could_not_move_motor could_not_set_led : Description
  could_not_retrieve_information could_not_shutdown_motor : Description
  could_not_initialize_context no_image_generator_found no_depth_generator_found : Description
  starting_generators_failed no_user_generator_found no_calibration_pose no_skeleton_profile :
      Description
  no_calibration_start_callback no_calibration_end_callback no_pose_callback : Description
  no_user_callbacks no_exit_callback no_reenter_callback no_generating : Description

pub record DepthCameraException : Type 0 where
  pub description : Description
  pub status : ℕ

-- `fault` is a null pointer that is followed, or memory out of bounds; `waits` is a loop that waits for
-- what never happens.
pub data Result {ℓ} (A : Type ℓ) : Type ℓ where
  fault waits : Result A
  thrown : DepthCameraException → Result A
  done : A → Result A

infixl 5 ◌then◌
unfoldable pub ◌then◌ {ℓ κ} : {A : Type ℓ} {B : Type κ} → Result A → (A → Result B) → Result B
fault then f = fault
waits then f = waits
thrown e then f = thrown e
done a then f = f a

abbrev pub of_option {ℓ} : {A : Type ℓ} → Option A → Result A
of_option none = fault
of_option (some a) = done a
