-- ===== src/Framework/Construction.antt =====
-- The constructors of framework/DepthCamera.cpp and SkeletonTracker.cpp: calls of OpenNI, which are
-- parameters, one after the other, each of which may throw. What is printed is not modelled.
use footscreen.Base.{ℕ, ap, ◌∙◌, ◌≡◌, ◌≢◌, refl, List, [], ◌∷◌, ◌++◌, ◌==◌, if◌then◌else◌, arith}
use footscreen.Framework.{
  Result, fault, waits, thrown, done, ◌then◌, Description, could_not_initialize_context,
  no_image_generator_found, no_depth_generator_found, starting_generators_failed,
  no_user_generator_found, no_calibration_pose, no_skeleton_profile, no_calibration_start_callback,
  no_calibration_end_callback, no_pose_callback, no_user_callbacks, no_exit_callback,
  no_reenter_callback, no_generating,
}
use footscreen.Framework.Skeleton.{SkeletonTracker}

-- A call, whose status is either tested or assigned over.
pub data Step (W : Type 0) : Type 0 where
  tested : Description → (W → ℕ × W) → Step W
  untested : (W → ℕ × W) → Step W

module _ {W : Type 0} (status_ok : ℕ) where
  unfoldable pub run_step : Step W → W → Result W
  run_step (tested d f) w =
      let (status, w') = f w in
      if status == status_ok then done w' else thrown (record { description = d; status = status })
  run_step (untested f) w = done (f w).1

  unfoldable pub run_steps : List (Step W) → W → Result W
  unfolding run_step
  run_steps [] w = done w
  run_steps (s ∷ ss) w = run_step s w then run_steps ss

-- The context of OpenNI, while the camera is made.
pub record CameraCalls (W : Type 0) : Type 0 where
  pub init : W → ℕ × W
  pub create_image : W → ℕ × W
  pub set_image_output_mode : W → ℕ × W
  pub set_image_mirror : W → ℕ × W
  pub create_depth : W → ℕ × W
  pub set_depth_output_mode : W → ℕ × W
  pub set_depth_mirror : W → ℕ × W
  pub set_view_point : W → ℕ × W
  pub start_generating_all : W → ℕ × W

unfoldable pub new_depth_camera : {W : Type 0} → ℕ → CameraCalls W → W → Result W
unfolding run_steps
new_depth_camera status_ok c = run_steps status_ok (
    tested could_not_initialize_context c.init
    ∷ tested no_image_generator_found c.create_image
    ∷ untested c.set_image_output_mode
    ∷ untested c.set_image_mirror
    ∷ tested no_depth_generator_found c.create_depth
    ∷ untested c.set_depth_output_mode
    ∷ untested c.set_depth_mirror
    ∷ untested c.set_view_point
    ∷ tested starting_generators_failed c.start_generating_all
    ∷ [])

-- The user generator, while the tracker is made.
pub record TrackerCalls (W : Type 0) : Type 0 where
  pub create : W → ℕ × W
  pub get_calibration_pose : W → ℕ × W
  pub set_skeleton_profile : W → ℕ × W
  pub register_calibration_start : W → ℕ × W
  pub register_calibration_complete : W → ℕ × W
  pub register_pose_detected : W → ℕ × W
  pub register_user_callbacks : W → ℕ × W
  pub register_user_exit : W → ℕ × W
  pub register_user_reenter : W → ℕ × W
  pub start_generating : W → ℕ × W

unfoldable pub new_skeleton_tracker :
    {W : Type 0} → ℕ → TrackerCalls W → W → Result (SkeletonTracker W)
unfolding run_steps
new_skeleton_tracker status_ok c w =
    run_steps status_ok
      (tested no_user_generator_found c.create
        ∷ tested no_calibration_pose c.get_calibration_pose
        ∷ tested no_skeleton_profile c.set_skeleton_profile
        ∷ tested no_calibration_start_callback c.register_calibration_start
        ∷ tested no_calibration_end_callback c.register_calibration_complete
        ∷ tested no_pose_callback c.register_pose_detected
        ∷ tested no_user_callbacks c.register_user_callbacks
        ∷ tested no_exit_callback c.register_user_exit
        ∷ tested no_reenter_callback c.register_user_reenter
        ∷ tested no_generating c.start_generating
        ∷ [])
      w
    then λ w'. done (record { user_generator = w'; tracked_users = [] })

then-then :
    {A : Type 0} (r : Result A) (f g k : A → Result A)
    → ((a : A) → f a ≡ (g a then k))
    → (r then f) ≡ ((r then g) then k)
unfolding ◌then◌
then-then fault f g k e = refl
then-then waits f g k e = refl
then-then (thrown x) f g k e = refl
then-then (done a) f g k e = e a

module _ {W : Type 0} (status_ok : ℕ) where
  -- Steps in two parts: the second is run if the first does not throw, and not at all if it does.
  run_steps-append :
      (xs ys : List (Step W)) (w : W)
      → run_steps status_ok (xs ++ ys) w ≡ (run_steps status_ok xs w then run_steps status_ok ys)
  unfolding run_steps ◌then◌
  run_steps-append [] ys w = refl
  run_steps-append (x ∷ xs) ys w =
      then-then (run_step status_ok x w) (run_steps status_ok (xs ++ ys)) (run_steps status_ok xs)
        (run_steps status_ok ys) (λ v. run_steps-append xs ys v)

  run_step-thrown :
      (d : Description) (f : W → ℕ × W) (v : W)
      → (f v).0 ≢ status_ok
      → run_step status_ok (tested d f) v ≡ thrown (record { description = d; status = (f v).0 })
  unfolding run_step
  run_step-thrown d f v bad = ground arith

  -- If the steps before a tested one do not throw, and its status is not the good one, then the
  -- exception has its description and this status, whatever the steps after it would do.
  pub run_steps-thrown :
      (xs ys : List (Step W)) (d : Description) (f : W → ℕ × W) (w v : W)
      → run_steps status_ok xs w ≡ done v
      → (f v).0 ≢ status_ok
      → run_steps status_ok (xs ++ tested d f ∷ ys) w
        ≡ thrown (record { description = d; status = (f v).0 })
  unfolding ◌then◌ run_steps
  run_steps-thrown xs ys d f w v before bad =
      run_steps-append xs (tested d f ∷ ys) w
      ∙ ap (λ r. r then run_steps status_ok (tested d f ∷ ys)) before
      ∙ ap (λ r. r then run_steps status_ok ys) (run_step-thrown d f v bad)
