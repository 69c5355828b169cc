-- ===== src/Application/Ending.antt =====
-- The calls of Application.cpp that come to an end if the camera and the orders to the client do.
use footscreen.Base.{ℕ, ◌%◌, Bool, true, false, none, some, List, [], ◌∷◌}
use footscreen.Floats.{Floats}
use footscreen.Framework.{Result}
use footscreen.Framework.Returns.{Halts, Any, Halts-done, Halts-after, Halts-elim, Halts-if}
use footscreen.Following.{
  Orders, Screen, Nearest, find_nearest, order_nearest, follow_touch, unit_numbers,
}
use footscreen.Game.{Game, own_unit_by_index}
use footscreen.Touch.{Point, Vision, Touch, acquire, calibrate_touch, detect_touch}

-- The camera always has a frame or fails, and whenever an order is sent the connection is up, or comes
-- up, so that the loop in `send` of uist-game/NetworkClient.cpp ends.
pub record IsResponsive {F I W N : Type 0} (orders : Orders F N)
    (get_frame : W → I → I → Result (W × I × I)) : Type 0 where
  pub frames : (w : W) (bgr depth : I) → Halts Any (get_frame w bgr depth)
  pub moves : (i : ℕ) (angle strength : F) (n : N) → Halts Any (orders.move_unit i angle strength n)
  pub highlights : (i : ℕ) (b : Bool) (n : N) → Halts Any (orders.highlight_unit i b n)

module _ {F D I M W N S : Type 0} (f : Floats F D) (v : Vision I S F D) (screen : Screen F I M)
    (orders : Orders F N) (get_frame : W → I → I → Result (W × I × I))
    (responsive : IsResponsive orders get_frame) where
  pub acquire-Halts : (t : Touch W I D) → Halts Any (acquire f v get_frame t)
  unfolding acquire
  acquire-Halts t = Halts-elim _ t.depth_camera _ (λ w.
      Halts-after _ _ _ (responsive.frames w t.bgr_image t.depth_image) (λ r. Halts-done _ _ tt))

  pub calibrate_touch-Halts : (t : Touch W I D) → Halts Any (calibrate_touch f v get_frame t)
  unfolding calibrate_touch
  calibrate_touch-Halts t = Halts-after _ _ _ (acquire-Halts t) (λ a. Halts-done _ _ tt)

  pub detect_touch-Halts : (t : Touch W I D) → Halts Any (detect_touch f v get_frame t)
  unfolding detect_touch
  detect_touch-Halts t =
      Halts-after _ _ _ (Halts-if _ _ _ _ (Halts-done _ _ tt) (calibrate_touch-Halts t))
        (λ a. Halts-done _ _ tt)

  find_nearest-Halts :
      (touch : Point F) (g : Game F D) (is : List ℕ) (best : Nearest F) (n : N)
      → Halts Any (find_nearest f screen orders touch g is best n)
  unfolding find_nearest
  find_nearest-Halts touch g [] best n = Halts-done _ _ tt
  find_nearest-Halts touch g (i ∷ is) best n = Halts-elim _ (own_unit_by_index i g) _ (λ u.
      Halts-after _ _ _ (responsive.highlights i false n)
        (λ n'. find_nearest-Halts touch g is _ n'))

  order_nearest-Halts :
      (touch : Point F) (g : Game F D) (best : Nearest F) (n : N)
      → Halts Any (order_nearest f screen orders touch g best n)
  unfolding order_nearest
  order_nearest-Halts touch g best n =
      let i : ℕ = elim best.min_distance_index [ none ↦ 255 | some j ↦ j ] in
      Halts-elim _ (own_unit_by_index (i % 256) g) _ (λ u.
        Halts-after _ _ _ (responsive.moves i _ screen.tenth n)
          (λ n'. responsive.highlights i true n'))

  pub follow_touch-Halts :
      (touch : Point F) (g : Game F D) (n : N) → Halts Any (follow_touch f screen orders touch g n)
  unfolding follow_touch
  follow_touch-Halts touch g n =
      Halts-after _ _ _
        (find_nearest-Halts touch g unit_numbers
          (record { min_distance_index = none; min_distance = f.lit 0 }) n)
        (λ found. order_nearest-Halts touch g found.0 found.1)
