-- ===== src/Framework/Skeleton/Users.antt =====
-- The users that `SkeletonTracker` keeps are those that the generator tracks.
use footscreen.Base.{
  ℕ, ◌≡◌, refl, Bool, true, false, not, ◌&&◌, ◌||◌, List, [], ◌∷◌, any, ◌<◌, All, ◌==◌, arith,
  Bool-cases, inl, inr, ltb,
}
use footscreen.Framework.Skeleton.{
  insert, erase, UserGenerator, SkeletonTracker, UserEvent, new_user, exit_user, re_enter_user,
  lost_user, pose_detected, calibration_start, calibration_end, forget_user, track_user,
  detect_pose, handle_user, handle_users,
}

-- Whether a user is in the set.
abbrev pub has_user : ℕ → List ℕ → Bool
has_user u vs = any (λ v. u == v) vs

-- The elements stand in order, each once.
abbrev pub IsUserSet : List ℕ → Type 0
IsUserSet [] = Unit
IsUserSet (v ∷ vs) = All (λ w. v < w) vs × IsUserSet vs

has_user-insert : (u w : ℕ) (vs : List ℕ) → has_user w (insert u vs) ≡ (w == u) || has_user w vs
unfolding insert
has_user-insert u w [] = refl
has_user-insert u w (v ∷ vs) = ground (arith, has_user-insert u w vs)

All-insert : (u v : ℕ) (vs : List ℕ) → v < u → All (λ w. v < w) vs → All (λ w. v < w) (insert u vs)
unfolding insert
All-insert u v [] h hs = (h, tt)
All-insert u v (x ∷ xs) h hs = elim (Bool-cases (ltb u x)) [
  | inl lt ↦ rw lt (h, hs)
  | inr ge ↦ elim (Bool-cases (u == x)) [
    | inl eq ↦ rw (ge, eq) hs
    | inr ne ↦ rw (ge, ne) (hs.0, All-insert u v xs h hs.1)
  ]
]

All-lt_trans : (u v : ℕ) (vs : List ℕ) → u < v → All (λ w. v < w) vs → All (λ w. u < w) vs
All-lt_trans u v [] h hs = tt
All-lt_trans u v (x ∷ xs) h hs = (omega (arith, hs.0), All-lt_trans u v xs h hs.1)

insert-IsUserSet : (u : ℕ) (vs : List ℕ) → IsUserSet vs → IsUserSet (insert u vs)
unfolding insert
insert-IsUserSet u [] s = (tt, tt)
insert-IsUserSet u (v ∷ vs) s = elim (Bool-cases (ltb u v)) [
  | inl lt ↦ let h : u < v = ground arith in rw lt ((h, All-lt_trans u v vs h s.0), s)
  | inr ge ↦ elim (Bool-cases (u == v)) [
    | inl eq ↦ rw (ge, eq) s
    | inr ne ↦
        let h : v < u = ground arith in
        rw (ge, ne) (All-insert u v vs h s.0, insert-IsUserSet u vs s.1)
  ]
]

All-erase : (u v : ℕ) (vs : List ℕ) → All (λ w. v < w) vs → All (λ w. v < w) (erase u vs)
unfolding erase
All-erase u v [] hs = tt
All-erase u v (x ∷ xs) hs = elim (Bool-cases (u == x)) [
  | inl eq ↦ rw eq hs.1
  | inr ne ↦ rw ne (hs.0, All-erase u v xs hs.1)
]

erase-IsUserSet : (u : ℕ) (vs : List ℕ) → IsUserSet vs → IsUserSet (erase u vs)
unfolding erase
erase-IsUserSet u [] s = tt
erase-IsUserSet u (v ∷ vs) s = elim (Bool-cases (u == v)) [
  | inl eq ↦ rw eq s.1
  | inr ne ↦ rw ne (All-erase u v vs s.0, erase-IsUserSet u vs s.1)
]

has_user-above : (v : ℕ) (vs : List ℕ) → All (λ w. v < w) vs → has_user v vs ≡ false
has_user-above v [] hs = refl
has_user-above v (x ∷ xs) hs = let h : v < x = hs.0 in ground (arith, has_user-above v xs hs.1)

has_user-erase :
    (u w : ℕ) (vs : List ℕ) → IsUserSet vs → has_user w (erase u vs) ≡ not (w == u) && has_user w vs
unfolding erase
has_user-erase u w [] s = ground arith
has_user-erase u w (v ∷ vs) s = ground (arith, has_user-erase u w vs s.1, has_user-above v vs s.0)

-- What the tracker relies on: starting and stopping to track a user changes whether this user is
-- tracked, and nothing else does.
pub record IsGenerator {W : Type 0} (g : UserGenerator W) (tracks : ℕ → W → Bool) : Type 0 where
  pub tracks-start : (u v : ℕ) (w : W) → tracks v (g.start_tracking u w) ≡ (v == u) || tracks v w
  pub tracks-stop : (u v : ℕ) (w : W) → tracks v (g.stop_tracking u w) ≡ not (v == u) && tracks v w
  pub tracks-start_pose : (u v : ℕ) (w : W) → tracks v (g.start_pose_detection u w) ≡ tracks v w
  pub tracks-stop_pose : (u v : ℕ) (w : W) → tracks v (g.stop_pose_detection u w) ≡ tracks v w
  pub tracks-request : (u v : ℕ) (w : W) → tracks v (g.request_calibration u w) ≡ tracks v w

-- The tracked users are a set, and those that the generator tracks.
pub record IsInStep {W : Type 0} (tracks : ℕ → W → Bool) (t : SkeletonTracker W) : Type 0 where
  pub is_set : IsUserSet t.tracked_users
  pub same : (v : ℕ) → has_user v t.tracked_users ≡ tracks v t.user_generator

module _ {W : Type 0} (g : UserGenerator W) (tracks : ℕ → W → Bool)
    (laws : IsGenerator g tracks) where
  track_user-IsInStep :
      (u : ℕ) (t : SkeletonTracker W) → IsInStep tracks t → IsInStep tracks (track_user g u t)
  unfolding track_user
  track_user-IsInStep u t v = record {
    is_set = insert-IsUserSet u t.tracked_users v.is_set;
    same = λ w.
        rw (has_user-insert u w t.tracked_users, laws.tracks-start u w t.user_generator, v.same w)
          refl;
  }

  forget_user-IsInStep :
      (u : ℕ) (t : SkeletonTracker W) → IsInStep tracks t → IsInStep tracks (forget_user g u t)
  unfolding forget_user
  forget_user-IsInStep u t v = record {
    is_set = erase-IsUserSet u t.tracked_users v.is_set;
    same = λ w.
        rw
          (
            has_user-erase u w t.tracked_users v.is_set,
            laws.tracks-stop u w (g.stop_pose_detection u t.user_generator),
            laws.tracks-stop_pose u w t.user_generator,
            v.same w,
          )
          refl;
  }

  detect_pose-IsInStep :
      (u : ℕ) (t : SkeletonTracker W) → IsInStep tracks t → IsInStep tracks (detect_pose g u t)
  unfolding detect_pose
  detect_pose-IsInStep u t v = record {
    is_set = v.is_set;
    same = λ w. rw (laws.tracks-start_pose u w t.user_generator) (v.same w);
  }

  handle_user-IsInStep :
      (e : UserEvent) (t : SkeletonTracker W)
      → IsInStep tracks t
      → IsInStep tracks (handle_user g e t)
  unfolding handle_user
  handle_user-IsInStep (new_user u) t v = detect_pose-IsInStep u t v
  handle_user-IsInStep (exit_user u) t v = forget_user-IsInStep u t v
  handle_user-IsInStep (re_enter_user u) t v =
      elim (Bool-cases (g.is_calibrated u t.user_generator)) [
        | inl calibrated ↦ rw calibrated (track_user-IsInStep u t v)
        | inr fresh ↦ rw fresh (detect_pose-IsInStep u t v)
      ]
  handle_user-IsInStep (lost_user u) t v = forget_user-IsInStep u t v
  handle_user-IsInStep (pose_detected u) t v = record {
    is_set = v.is_set;
    same = λ w.
        rw
          (
            laws.tracks-request u w (g.stop_pose_detection u t.user_generator),
            laws.tracks-stop_pose u w t.user_generator,
          )
          (v.same w);
  }
  handle_user-IsInStep (calibration_start u) t v = v
  handle_user-IsInStep (calibration_end u true) t v = track_user-IsInStep u t v
  handle_user-IsInStep (calibration_end u false) t v = detect_pose-IsInStep u t v

  -- Whatever users come, go, come back and are calibrated, in whatever order: the users that the
  -- tracker keeps stay a set in order, and are exactly those that the generator tracks, if they were
  -- at first.
  pub handle_users-IsInStep :
      (es : List UserEvent) (t : SkeletonTracker W)
      → IsInStep tracks t
      → IsInStep tracks (handle_users g es t)
  unfolding handle_users
  handle_users-IsInStep [] t v = v
  handle_users-IsInStep (e ∷ es) t v =
      handle_users-IsInStep es (handle_user g e t) (handle_user-IsInStep e t v)
