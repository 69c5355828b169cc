-- ===== src/Framework/Camera.antt =====
-- framework/DepthCamera.h and DepthCamera.cpp: `getFrame`, which copies what OpenNI acquired into the
-- two images, pixel by pixel.
pub mod Copying
pub mod Filling
use footscreen.Base.{
  ℕ, zero, suc, ◌+◌, ◌%◌, Bool, true, false, ◌&&◌, Option, none, some, List, [], ◌∷◌, ltb, ◌==◌,
  if◌then◌else◌, ◌>>=◌, not, map,
}
use footscreen.Framework.{Result, done, thrown, ◌then◌, of_option, could_not_acquire_frame}

-- `cv::Mat` with pixels of a type, by row and column.
pub record Mat (A : Type 0) : Type 0 where
  pub rows : ℕ
  pub cols : ℕ
  pub pixel : ℕ → ℕ → A

module _ {A : Type 0} where
  -- `at(y, x) = a`; `none` is memory out of bounds.
  unfoldable pub set_pixel : ℕ → ℕ → A → Mat A → Option (Mat A)
  set_pixel y x a m =
      if ltb y m.rows && ltb x m.cols
      then some (record m { pixel = λ j i. if (j == y) && (i == x) then a else m.pixel j i })
      else none

  -- The inner loop, on fuel; `data_` is what the pointer leads to, and `x` is a `XnUInt16`. `none` is
  -- also the end of the fuel.
  unfoldable pub copy_row : ℕ → ℕ → ℕ → ℕ → List A → Mat A → Option (Mat A × List A)
  unfolding set_pixel
  copy_row zero width y x data_ m = none
  copy_row (suc fuel) width y x [] m = if ltb x width then none else some (m, [])
  copy_row (suc fuel) width y x (a ∷ data_) m =
      if ltb x width
      then (set_pixel y x a m >>= λ m'. copy_row fuel width y ((x + 1) % 65536) data_ m')
      else some (m, a ∷ data_)

  -- The outer loop.
  unfoldable pub copy_rows : ℕ → ℕ → ℕ → ℕ → List A → Mat A → Option (Mat A × List A)
  unfolding copy_row
  copy_rows zero width height y data_ m = none
  copy_rows (suc fuel) width height y data_ m =
      if ltb y height
      then (copy_row 65536 width y 0 data_ m >>= λ (m', rest).
          copy_rows fuel width height ((y + 1) % 65536) rest m')
      else some (m, data_)

-- `XnRGB24Pixel` and `cv::Vec3b`.
pub record Rgb : Type 0 where
  pub red : ℕ
  pub green : ℕ
  pub blue : ℕ

abbrev pub Bgr : Type 0
Bgr = ℕ × ℕ × ℕ

abbrev pub bgr_of : Rgb → Bgr
bgr_of p = (p.blue, p.green, p.red)

-- The context of OpenNI with its two generators: the width, the height and the pixels of each image.
pub record Context (W : Type 0) : Type 0 where
  pub status_ok : ℕ
  pub wait_and_update_all : W → ℕ × W
  pub depth_meta_data : W → ℕ × ℕ × List ℕ
  pub image_meta_data : W → ℕ × ℕ × List Rgb

-- The two loops of `getFrame`, on a width, a height and the pixels.
unfoldable pub copy_images :
    {W : Type 0}
    → W
    → ℕ × ℕ × List ℕ
    → ℕ × ℕ × List Rgb
    → Mat Bgr
    → Mat ℕ
    → Result (W × Mat Bgr × Mat ℕ)
copy_images w (width, height, data_) (bgr_width, bgr_height, rgb) bgr depth =
    of_option (copy_rows 65536 (width % 65536) (height % 65536) 0 data_ depth)
    then λ (depth', rest).
        of_option (copy_rows 65536 (bgr_width % 65536) (bgr_height % 65536) 0 (map bgr_of rgb) bgr)
        then λ (bgr', rest'). done (w, bgr', depth')

unfoldable pub get_frame :
    {W : Type 0} → Context W → W → Mat Bgr → Mat ℕ → Result (W × Mat Bgr × Mat ℕ)
unfolding copy_images
get_frame c w bgr depth =
    let (status, w') = c.wait_and_update_all w in
    if not (status == c.status_ok)
    then thrown (record { description = could_not_acquire_frame; status = status })
    else copy_images w' (c.depth_meta_data w') (c.image_meta_data w') bgr depth
