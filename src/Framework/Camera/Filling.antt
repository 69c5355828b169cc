-- ===== src/Framework/Camera/Filling.antt =====
-- `getFrame` of framework/DepthCamera.cpp ends, and copies every pixel to its place.
use mathlib.Core.Option.{some-injective}
use footscreen.Base.{
  ℕ, zero, suc, ◌+◌, ◌%◌, ◌≤◌, ◌<◌, ◌≡◌, inl, refl, ap, ◌∙◌, true, some, List, [], ◌∷◌, ◌++◌,
  length, get_elem?, map, ltb, All, arith, ==_refl,
}
use footscreen.Framework.{done, ◌then◌}
use footscreen.Framework.Camera.{
  Mat, copy_row, copy_rows, Rgb, Bgr, bgr_of, Context, get_frame, copy_images,
}
use footscreen.Framework.Camera.Copying.{IsAlike, IsCopied, copy_row-IsCopied}

module _ {A : Type 0} where
  -- The rows one after the other.
  abbrev pub joined : List (List A) → List A
  joined [] = []
  joined (r ∷ rs) = r ++ joined rs

  -- From some row on, the rows are in place; those before are as they were.
  record IsFilled (y : ℕ) (rows : List (List A)) (m n : Mat A) : Type 0 where
    alike : IsAlike n m
    in_place :
        (j i : ℕ) (r : List A) (a : A)
        → get_elem? rows j ≡ some r
        → get_elem? r i ≡ some a
        → n.pixel (y + j) i ≡ a
    others : (j i : ℕ) → j < y → n.pixel j i ≡ m.pixel j i

  copy_rows-end :
      (fuel width height y : ℕ) (rest : List A) (m : Mat A)
      → height ≤ y
      → copy_rows (suc fuel) width height y rest m ≡ some (m, rest)
  unfolding copy_rows
  copy_rows-end fuel width height y rest m h = ground arith

  copy_rows-turn :
      (fuel width height y : ℕ) (row rest : List A) (m n : Mat A)
      → y < height
      → height < 65536
      → copy_row 65536 width y 0 (row ++ rest) m ≡ some (n, rest)
      → copy_rows (suc fuel) width height y (row ++ rest) m
        ≡ copy_rows fuel width height (y + 1) rest n
  unfolding copy_rows
  copy_rows-turn fuel width height y row rest m n hy small e =
      let lt : ltb y height ≡ true = ground arith in
      let next : (y + 1) % 65536 ≡ y + 1 = omega arith in rw (lt, copy_rows, e, next) refl

  filled :
      (y : ℕ) (r : List A) (rows : List (List A)) (m n k : Mat A)
      → IsCopied y 0 r m n
      → IsFilled (y + 1) rows n k
      → (j i : ℕ) (s : List A) (a : A) → get_elem? (r ∷ rows) j ≡ some s
      → get_elem? s i ≡ some a
      → k.pixel (y + j) i ≡ a
  filled y r rows m n k v w zero i s a e e' =
      ap (λ j. k.pixel j i) {x = y + 0} {y = y} (omega arith)
      ∙ w.others y i (omega arith)
      ∙ ap (n.pixel y) {x = i} {y = 0 + i} (omega arith)
      ∙ v.in_place i a (ap (λ t. get_elem? t i) (some-injective _ _ e) ∙ e')
  filled y r rows m n k v w (suc j) i s a e e' =
      ap (λ l. k.pixel l i) {x = y + suc j} {y = y + 1 + j} (omega arith) ∙ w.in_place j i s a e e'

  copy_rows-IsFilled :
      (fuel width height y : ℕ) (rows : List (List A)) (m : Mat A)
      → All (λ r. length r ≡ width) rows
      → y + length rows ≡ height
      → length rows < fuel
      → height ≤ m.rows
      → width ≤ m.cols
      → width < 65536
      → height < 65536
      → (n : Mat A) × (copy_rows fuel width height y (joined rows) m ≡ some (n, []))
        × IsFilled y rows m n
  copy_rows-IsFilled zero width height y rows m even whole enough hh hw small small' =
      absurd (omega arith)
  copy_rows-IsFilled (suc fuel) width height y [] m even whole enough hh hw small small' = (
    m,
    copy_rows-end fuel width height y [] m (omega arith),
    record {
      alike = record { rows_eq = refl; cols_eq = refl };
      in_place = λ j i r a e e'. absurd (cc);
      others = λ j i h. refl;
    },
  )
  copy_rows-IsFilled (suc fuel) width height y (r ∷ rows) m even whole enough hh hw small small' =
      let wide : length r ≡ width = even.0 in
      let (n, e, v) =
        copy_row-IsCopied 65536 width y 0 r (joined rows) m (omega arith) (omega arith)
          (omega arith) hw small in
      let (k, e', w) =
        copy_rows-IsFilled fuel width height (y + 1) rows n even.1 (omega arith) (omega arith)
          (omega (arith, v.alike.rows_eq)) (omega (arith, v.alike.cols_eq)) small small' in
      (
        k,
        copy_rows-turn fuel width height y r (joined rows) m n (omega arith) small' e ∙ e',
        record {
          alike = record {
            rows_eq = w.alike.rows_eq ∙ v.alike.rows_eq;
            cols_eq = w.alike.cols_eq ∙ v.alike.cols_eq;
          };
          in_place = filled y r rows m n k v w;
          others = λ j i h.
              w.others j i (omega (arith, h)) ∙ v.others j i (inl (λ same. omega (arith, h, same)));
        },
      )

-- The pixels of rows, each in its place of an image.
abbrev pub InPlace : {A : Type 0} → List (List A) → Mat A → Type 0
InPlace {A} rows n =
    (j i : ℕ) (r : List A) (a : A)
    → get_elem? rows j ≡ some r
    → get_elem? r i ≡ some a
    → n.pixel j i ≡ a

-- Rows of an image that an array of pixels consists of, and that fit an image in memory.
pub record IsImage {A : Type 0} (width height : ℕ) (data_ : List A) (rows : List (List A))
    (m : Mat A) : Type 0 where
  pub data_eq : data_ ≡ joined rows
  pub even : All (λ r. length r ≡ width) rows
  pub length-rows : length rows ≡ height
  pub height_le : height ≤ m.rows
  pub width_le : width ≤ m.cols
  pub width_lt : width < 65536
  pub height_lt : height < 65536

copy_rows-InPlace :
    {A : Type 0} (width height : ℕ) (data_ : List A) (rows : List (List A)) (m : Mat A)
    → IsImage width height data_ rows m
    → (n : Mat A) × (copy_rows 65536 (width % 65536) (height % 65536) 0 data_ m ≡ some (n, []))
      × InPlace rows n
copy_rows-InPlace width height data_ rows m v =
    let w : width % 65536 ≡ width = omega (arith, v.width_lt) in
    let h : height % 65536 ≡ height = omega (arith, v.height_lt) in
    let (n, e, filled) =
      copy_rows-IsFilled 65536 width height 0 rows m v.even (omega (arith, v.length-rows))
        (omega (arith, v.length-rows, v.height_lt)) v.height_le v.width_le v.width_lt v.height_lt in
    (
      n,
      (λ i. copy_rows 65536 (w i) (h i) 0 (v.data_eq i) m) ∙ e,
      λ j i r a at_j at_i.
          ap (λ y. n.pixel y i) {x = j} {y = 0 + j} (omega arith)
          ∙ filled.in_place j i r a at_j at_i,
    )

copy_images-copied :
    {W : Type 0} (w : W) (width height bgr_width bgr_height : ℕ) (depths : List ℕ)
    (colors : List Rgb) (bgr bgr' : Mat Bgr) (depth depth' : Mat ℕ)
    → copy_rows 65536 (width % 65536) (height % 65536) 0 depths depth ≡ some (depth', [])
    → copy_rows 65536 (bgr_width % 65536) (bgr_height % 65536) 0 (map bgr_of colors) bgr
      ≡ some (bgr', [])
    → copy_images w (width, height, depths) (bgr_width, bgr_height, colors) bgr depth
      ≡ done (w, bgr', depth')
unfolding copy_images ◌then◌
copy_images-copied w width height bgr_width bgr_height depths colors bgr bgr' depth depth' e e' =
    rw (e, e') refl

module _ {W : Type 0} (c : Context W) (w w' : W) (bgr : Mat Bgr) (depth : Mat ℕ)
    (acquired : c.wait_and_update_all w ≡ (c.status_ok, w')) where
  get_frame-copy_images :
      get_frame c w bgr depth
      ≡ copy_images w' (c.depth_meta_data w') (c.image_meta_data w') bgr depth
  unfolding get_frame
  get_frame-copy_images = rw (acquired, ==_refl c.status_ok) refl

  -- If OpenNI acquires two images, each as wide and high as it says, with less than 65536 rows and
  -- columns, and no larger than the image in memory that it goes to, then the loops of `getFrame` end
  -- without a fault, and every pixel stands in its row and column, with blue, green and red in the
  -- order of OpenCV.
  pub get_frame-InPlace :
      (width height bgr_width bgr_height : ℕ) (depths : List ℕ) (colors : List Rgb)
      (depth_rows : List (List ℕ)) (bgr_rows : List (List Bgr))
      → c.depth_meta_data w' ≡ (width, height, depths)
      → c.image_meta_data w' ≡ (bgr_width, bgr_height, colors)
      → IsImage width height depths depth_rows depth
      → IsImage bgr_width bgr_height (map bgr_of colors) bgr_rows bgr
      → (bgr' : Mat Bgr) × (depth' : Mat ℕ) × (get_frame c w bgr depth ≡ done (w', bgr', depth'))
        × InPlace depth_rows depth'
        × InPlace bgr_rows bgr'
  get_frame-InPlace width height bgr_width bgr_height depths colors depth_rows bgr_rows d i v u =
      let (depth', e, in_depth) = copy_rows-InPlace width height depths depth_rows depth v in
      let (bgr', e', in_bgr) =
        copy_rows-InPlace bgr_width bgr_height (map bgr_of colors) bgr_rows bgr u in
      (
        bgr',
        depth',
        get_frame-copy_images
            ∙ (λ k. copy_images w' (d k) (i k) bgr depth)
            ∙ copy_images-copied w' width height bgr_width bgr_height depths colors bgr bgr' depth
                depth' e e',
        in_depth,
        in_bgr,
      )
