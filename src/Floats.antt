-- ===== src/Floats.antt =====
-- All that the game does with a `float` (F) and a `double` (D), and the norms of OpenCV. The
-- arithmetic of the machine is not defined here: it is a parameter of what uses it.
use footscreen.Base.{ℕ, Bool, ◌≡◌, true, false}
use footscreen.Base.Int.{ℤ}

pub record Floats (F D : Type 0) : Type 0 where
  pub lit : ℕ → F
  pub add : F → F → F
  pub sub : F → F → F
  pub mul : F → F → F
  pub div : F → F → F
  pub neg : F → F
  pub fabs : F → F
  pub cos : F → F
  pub sin : F → F
  -- `a < b` and `a <= b`.
  pub lt : F → F → Bool
  pub le : F → F → Bool
  -- The conversions to and from `int`.
  pub truncate : F → ℤ
  pub of_int : ℤ → F
  pub widen : F → D
  pub narrow : D → F
  pub d_lit : ℕ → D
  pub d_minus_one : D
  -- 1.2
  pub d_six_fifths : D
  pub d_mul : D → D → D
  pub d_div : D → D → D
  pub d_lt : D → D → Bool
  -- `cv::norm` of a `cv::Point` and of a pair of floats, and `Vec2f::dot`.
  pub norm_point : ℤ → ℤ → D
  pub norm_float : F → F → D
  pub dot : F → F → F → F → F

-- The order laws that the theorems use. They hold of IEEE arithmetic, NaN included: a NaN is neither
-- less than nor greater than anything.
pub record IsOrdered {F D : Type 0} (f : Floats F D) : Type 0 where
  pub lt_irrefl : (a : F) → f.lt a a ≡ false
  pub lt_asymm : (a b : F) → f.lt a b ≡ true → f.lt b a ≡ false
  -- A difference of numbers in order is not positive.
  pub sub_nonpos : (a b : F) → f.lt a b ≡ true → f.le (f.sub a b) (f.lit 0) ≡ true
  -- The walls stand apart.
  pub walls_lt :
      f.lt (f.div (f.lit 8) (f.lit 2)) (f.sub (f.lit 480) (f.div (f.lit 8) (f.lit 2))) ≡ true
