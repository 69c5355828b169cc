-- ===== src/Framework/Skeleton.antt =====
-- framework/SkeletonTracker.h and SkeletonTracker.cpp: which users are tracked, and how a skeleton is
-- drawn. The user generator of OpenNI is a parameter; its state is `W`.
pub mod Users
use footscreen.Base.{ℕ, Bool, true, false, not, ◌&&◌, List, [], ◌∷◌, ltb, ◌==◌, if◌then◌else◌}

-- `std::set`, as the list of its elements in order.
unfoldable pub insert : ℕ → List ℕ → List ℕ
insert u [] = u ∷ []
insert u (v ∷ vs) =
    let rest = insert u vs in if ltb u v then u ∷ v ∷ vs else if u == v then v ∷ vs else v ∷ rest

unfoldable pub erase : ℕ → List ℕ → List ℕ
erase u [] = []
erase u (v ∷ vs) = let rest = erase u vs in if u == v then vs else v ∷ rest

-- What the tracker asks of the generator, with the ID of a user.
pub record UserGenerator (W : Type 0) : Type 0 where
  pub start_pose_detection : ℕ → W → W
  pub stop_pose_detection : ℕ → W → W
  pub request_calibration : ℕ → W → W
  pub start_tracking : ℕ → W → W
  pub stop_tracking : ℕ → W → W
  pub is_calibrated : ℕ → W → Bool

pub record SkeletonTracker (W : Type 0) : Type 0 where
  pub user_generator : W
  pub tracked_users : List ℕ

-- The callbacks that the generator runs; the end of a calibration comes with whether its status is
-- `XN_CALIBRATION_STATUS_OK`.
pub data UserEvent : Type 0 where
  new_user exit_user re_enter_user lost_user pose_detected calibration_start : ℕ → UserEvent
  calibration_end : ℕ → Bool → UserEvent

module _ {W : Type 0} (g : UserGenerator W) where
  -- The same steps in `exitUser` and `lostUser`.
  unfoldable pub forget_user : ℕ → SkeletonTracker W → SkeletonTracker W
  unfolding erase
  forget_user u t = record {
    user_generator = g.stop_tracking u (g.stop_pose_detection u t.user_generator);
    tracked_users = erase u t.tracked_users;
  }

  unfoldable pub track_user : ℕ → SkeletonTracker W → SkeletonTracker W
  unfolding insert
  track_user u t = record {
    user_generator = g.start_tracking u t.user_generator;
    tracked_users = insert u t.tracked_users;
  }

  unfoldable pub detect_pose : ℕ → SkeletonTracker W → SkeletonTracker W
  detect_pose u t = record t { user_generator = g.start_pose_detection u t.user_generator }

  unfoldable pub handle_user : UserEvent → SkeletonTracker W → SkeletonTracker W
  unfolding forget_user track_user detect_pose
  handle_user (new_user u) t = detect_pose u t
  handle_user (exit_user u) t = forget_user u t
  handle_user (re_enter_user u) t =
      if g.is_calibrated u t.user_generator then track_user u t else detect_pose u t
  handle_user (lost_user u) t = forget_user u t
  handle_user (pose_detected u) t = record t {
    user_generator = g.request_calibration u (g.stop_pose_detection u t.user_generator);
  }
  handle_user (calibration_start u) t = t
  handle_user (calibration_end u ok) t = if ok then track_user u t else detect_pose u t

  unfoldable pub handle_users : List UserEvent → SkeletonTracker W → SkeletonTracker W
  unfolding handle_user
  handle_users [] t = t
  handle_users (e ∷ es) t = handle_users es (handle_user e t)

pub data Joint : Type 0 where
  head neck torso left_shoulder left_elbow left_hand : Joint
  right_shoulder right_elbow right_hand : Joint

-- `J` is the type of joint positions, `P` of points and `I` of images. `is_unsure` says that the
-- confidence is below 0.5; `project` is `ConvertRealWorldToProjective`.
pub record Drawing (W J P I : Type 0) : Type 0 where
  pub joint_position : ℕ → Joint → W → J
  pub is_unsure : J → Bool
  pub project : J → P
  pub circle : P → I → I
  pub line : P → P → I → I

module _ {W J P I : Type 0} (d : Drawing W J P I) (w : W) (user : ℕ) where
  open d use {joint_position, is_unsure, project, circle, line}

  unfoldable pub draw_limb : Joint → Joint → I → I
  draw_limb a b image =
      let p = joint_position user a w in
      let q = joint_position user b w in
      if is_unsure p && is_unsure q
      then image
      else line (project p) (project q) (circle (project q) (circle (project p) image))

  unfoldable pub draw_skeleton : I → I
  unfolding draw_limb
  draw_skeleton image =
      let to_hand = draw_limb left_elbow left_hand (
        draw_limb left_shoulder left_elbow
          (draw_limb neck left_shoulder (draw_limb head neck image))) in
      let to_other_hand =
        draw_limb right_elbow right_hand
          (draw_limb right_shoulder right_elbow (draw_limb neck right_shoulder to_hand)) in
      draw_limb right_shoulder torso (draw_limb left_shoulder torso to_other_hand)

-- `Application::processSkeleton` for some users, without the position of a hand, which is not used.
unfoldable pub draw_users : {W J P I : Type 0} → Drawing W J P I → W → List ℕ → I → I
unfolding draw_skeleton
draw_users d w [] image = image
draw_users d w (u ∷ us) image = draw_users d w us (draw_skeleton d w u image)
