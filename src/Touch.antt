-- ===== src/Touch.antt =====
-- How Application.cpp finds a foot in the image of the depth camera: `detectTouch`,
-- `calibrateTouch` and `flipHorizontally`. The operations of OpenCV are parameters. The image that
-- `detectTouch` draws ellipses on is its own and read by nobody, so that drawing is left out; so are
-- the two flipped images, since each is the image it was copied to.
pub mod Largest
use footscreen.Base.{
  ℕ, Bool, true, false, ◌&&◌, Option, none, some, List, [], ◌∷◌, length, ltb, if◌then◌else◌,
}
use footscreen.Floats.{Floats}
use footscreen.Framework.{Result, fault, done, ◌then◌}

-- `cv::Point2f`.
pub record Point (F : Type 0) : Type 0 where
  pub x : F
  pub y : F

-- What is used of `cv::RotatedRect`.
pub record RotatedRect (F : Type 0) : Type 0 where
  pub center : Point F
  pub width : F
  pub height : F

-- The operations on images `I`, with `C` for the points of a contour. `flip` is around the vertical
-- axis; `to_bytes` divides by 256; the thresholds are those of `THRESH_TOZERO_INV` and
-- `THRESH_TOZERO`.
pub record Vision (I C F D : Type 0) : Type 0 where
  pub flip : I → I
  pub amplify : ℕ → I → I
  pub to_bytes : I → I
  pub absdiff : I → I → I
  pub median_blur : ℕ → I → I
  pub to_zero_above : ℕ → I → I
  pub to_zero_below : ℕ → I → I
  pub find_contours : I → List (List C)
  pub fit_ellipse : List C → RotatedRect F
  pub maximum : I → D

-- The members of `Application` that the camera and the recognition of touch use. `depth_camera` is
-- the state of the camera, or null.
pub record Touch (W I D : Type 0) : Type 0 where
  pub depth_camera : Option W
  pub bgr_image : I
  pub depth_image : I
  pub calibration_image : I
  pub is_touch_calibrated : Bool
  pub is_touching : Bool
  pub ground_value : D

abbrev pub image_amplification : ℕ
image_amplification = 10

abbrev pub min_contour_points : ℕ
min_contour_points = 10

abbrev pub leg_threshold : ℕ
leg_threshold = 35

module _ {I C F D : Type 0} (f : Floats F D) (v : Vision I C F D) where
  open f use {lit, neg, mul, le, widen, d_lit, d_lt}

  -- One turn of the loop over the contours, on `maxEllipseSize` and `maxEllipseCenter`.
  unfoldable pub consider : List C → D × Point F → D × Point F
  consider c (size, center) =
      if ltb (length c) min_contour_points
      then (size, center)
      else let e = v.fit_ellipse c in
        let current = widen (mul e.width e.height) in
        if d_lt size current then (current, e.center) else (size, center)

  unfoldable pub consider_all : List (List C) → D × Point F → D × Point F
  unfolding consider
  consider_all [] best = best
  consider_all (c ∷ cs) best = consider_all cs (consider c best)

  abbrev pub no_ellipse : D × Point F
  no_ellipse = (d_lit 0, record { x = neg (lit 1); y = neg (lit 1) })

  -- What has moved since the calibration, from an amplified depth image.
  unfoldable pub moved_parts : I → I → I
  moved_parts calibration depth =
      let diff = v.amplify 10 (v.median_blur 25 (v.absdiff (v.to_bytes depth) calibration)) in
      v.to_zero_below 20 (v.to_zero_above leg_threshold diff)

  unfoldable pub flip_horizontally : {W : Type 0} → Touch W I D → Touch W I D
  flip_horizontally t = record t {
    bgr_image = v.flip t.bgr_image;
    depth_image = v.flip t.depth_image;
  }

  -- `get_frame` is `DepthCamera::getFrame`.
  module _ {W : Type 0} (get_frame : W → I → I → Result (W × I × I)) where
    unfoldable pub acquire : Touch W I D → Result (Touch W I D)
    acquire t = elim t.depth_camera [
      | none ↦ fault
      | some w ↦ get_frame w t.bgr_image t.depth_image then λ (w', bgr, depth).
          done (record t { depth_camera = some w'; bgr_image = bgr; depth_image = depth })
    ]

    unfoldable pub calibrate_touch : Touch W I D → Result (Touch W I D)
    unfolding acquire flip_horizontally
    calibrate_touch t = acquire t then λ a.
        let b = flip_horizontally a in
        let depth = v.amplify image_amplification b.depth_image in
        let image = v.to_bytes depth in
        done (record b {
          depth_image = depth;
          calibration_image = image;
          is_touch_calibrated = true;
          ground_value = v.maximum image;
        })

    unfoldable pub detect_touch : Touch W I D → Result (Touch W I D × Point F)
    unfolding calibrate_touch moved_parts consider_all
    detect_touch t = (if t.is_touch_calibrated then done t else calibrate_touch t) then λ a.
        let depth = v.amplify image_amplification a.depth_image in
        let contours = v.find_contours (moved_parts a.calibration_image depth) in
        let (size, center) = consider_all contours no_ellipse in
        done (
          record a {
            depth_image = depth;
            is_touching = le (lit 0) center.x && le (lit 0) center.y;
          },
          center,
        )
