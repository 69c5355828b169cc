-- ===== src/Framework/Camera/Copying.antt =====
-- The inner loop of `getFrame` of framework/DepthCamera.cpp copies a row.
use mathlib.Core.Option.{some-injective}
use footscreen.Base.{
  ℕ, zero, suc, ◌+◌, ◌%◌, ◌≤◌, ◌<◌, ◌≡◌, ◌≢◌, ◌⊎◌, inl, inr, refl, ap, ◌∙◌, true, ◌&&◌, some, List,
  [], ◌∷◌, ◌++◌, length, get_elem?, ltb, ◌==◌, if◌then◌else◌, arith, ==_refl,
}
use footscreen.Framework.{◌then◌}
use footscreen.Framework.Camera.{Mat, set_pixel, copy_row}

module _ {A : Type 0} where
  abbrev put : ℕ → ℕ → A → Mat A → Mat A
  put y x a m = record m { pixel = λ j i. if (j == y) && (i == x) then a else m.pixel j i }

  set_pixel-put :
      (y x : ℕ) (a : A) (m : Mat A)
      → y < m.rows
      → x < m.cols
      → set_pixel y x a m ≡ some (put y x a m)
  unfolding set_pixel
  set_pixel-put y x a m hy hx = ground arith

  -- An image of the same size.
  pub record IsAlike (m n : Mat A) : Type 0 where
    pub rows_eq : m.rows ≡ n.rows
    pub cols_eq : m.cols ≡ n.cols

  -- A row that is copied from some column on: its pixels stand in place, and all others are as before.
  pub record IsCopied (y x : ℕ) (row : List A) (m n : Mat A) : Type 0 where
    pub alike : IsAlike n m
    pub in_place : (i : ℕ) (a : A) → get_elem? row i ≡ some a → n.pixel y (x + i) ≡ a
    pub others : (j i : ℕ) → (j ≢ y) ⊎ (i < x) → n.pixel j i ≡ m.pixel j i

  put-same : (y x : ℕ) (a : A) (m : Mat A) → (put y x a m).pixel y x ≡ a
  put-same y x a m = rw (==_refl y, ==_refl x) refl

  put-other_row : (y x j i : ℕ) (a : A) (m : Mat A) → j ≢ y → (put y x a m).pixel j i ≡ m.pixel j i
  put-other_row y x j i a m ne = ground arith

  put-other_column :
      (y x j i : ℕ) (a : A) (m : Mat A) → i < x → (put y x a m).pixel j i ≡ m.pixel j i
  put-other_column y x j i a m lt = ground arith

  placed :
      (y x : ℕ) (a : A) (row : List A) (m n : Mat A)
      → IsCopied y (x + 1) row (put y x a m) n
      → (i : ℕ) (b : A) → get_elem? (a ∷ row) i ≡ some b
      → n.pixel y (x + i) ≡ b
  placed y x a row m n v zero b e =
      ap (n.pixel y) {x = x + 0} {y = x} (omega arith)
      ∙ v.others y x (inr (omega arith))
      ∙ put-same y x a m
      ∙ some-injective _ _ e
  placed y x a row m n v (suc i) b e =
      ap (n.pixel y) {x = x + suc i} {y = x + 1 + i} (omega arith) ∙ v.in_place i b e

  kept :
      (y x : ℕ) (a : A) (row : List A) (m n : Mat A)
      → IsCopied y (x + 1) row (put y x a m) n
      → (j i : ℕ) → (j ≢ y) ⊎ (i < x)
      → n.pixel j i ≡ m.pixel j i
  kept y x a row m n v j i (inl ne) = v.others j i (inl ne) ∙ put-other_row y x j i a m ne
  kept y x a row m n v j i (inr lt) =
      v.others j i (inr (omega (arith, lt))) ∙ put-other_column y x j i a m lt

  copy_row-end :
      (fuel width y x : ℕ) (rest : List A) (m : Mat A)
      → width ≤ x
      → copy_row (suc fuel) width y x rest m ≡ some (m, rest)
  unfolding copy_row
  copy_row-end fuel width y x [] m h = ground arith
  copy_row-end fuel width y x (a ∷ rest) m h = ground arith

  copy_row-turn :
      (fuel width y x : ℕ) (a : A) (rest : List A) (m : Mat A)
      → y < m.rows
      → x < width
      → width ≤ m.cols
      → width < 65536
      → copy_row (suc fuel) width y x (a ∷ rest) m
        ≡ copy_row fuel width y (x + 1) rest (put y x a m)
  unfolding copy_row
  copy_row-turn fuel width y x a rest m hy hx hw small =
      let lt : ltb x width ≡ true = ground arith in
      let next : (x + 1) % 65536 ≡ x + 1 = omega arith in
      rw (lt, copy_row, set_pixel-put y x a m hy (omega arith), next) refl

  pub copy_row-IsCopied :
      (fuel width y x : ℕ) (row rest : List A) (m : Mat A)
      → x + length row ≡ width
      → length row < fuel
      → y < m.rows
      → width ≤ m.cols
      → width < 65536
      → (n : Mat A) × (copy_row fuel width y x (row ++ rest) m ≡ some (n, rest))
        × IsCopied y x row m n
  copy_row-IsCopied zero width y x row rest m whole enough hy hw small = absurd (omega arith)
  copy_row-IsCopied (suc fuel) width y x [] rest m whole enough hy hw small = (
    m,
    copy_row-end fuel width y x rest m (omega arith),
    record {
      alike = record { rows_eq = refl; cols_eq = refl };
      in_place = λ i a e. absurd (cc);
      others = λ j i h. refl;
    },
  )
  copy_row-IsCopied (suc fuel) width y x (a ∷ row) rest m whole enough hy hw small =
      let (n, e, v) =
        copy_row-IsCopied fuel width y (x + 1) row rest (put y x a m) (omega arith) (omega arith) hy
          hw small in
      (
        n,
        copy_row-turn fuel width y x a (row ++ rest) m hy (omega arith) hw small ∙ e,
        record {
          alike = record { rows_eq = v.alike.rows_eq; cols_eq = v.alike.cols_eq };
          in_place = placed y x a row m n v;
          others = kept y x a row m n v;
        },
      )
