-- ===== src/Framework/Motor/Angle.antt =====
-- What `GetAngle` of framework/KinectMotor.cpp makes of what the motor reports.
use footscreen.Base.{ℕ, ◌+◌, ◌-◌, ◌*◌, ◌%◌, ◌≤◌, ◌<◌, ◌≡◌, refl, ap, ◌∙◌, arith, ==_refl}
use footscreen.Base.Int.{ℤ, pos, negsuc, sub_ℕ, ◌*ℤ◌}
use footscreen.Framework.{done, ◌then◌}
use footscreen.Framework.Motor.{Usb, angle_of, checked, get_information, get_angle}

-- The low byte of a number in two's complement.
abbrev pub low_byte : ℤ → ℕ
low_byte (pos n) = n % 256
low_byte (negsuc n) = 255 - n % 256

-- `GetAngle` reads an angle that is not negative as it is, and any other as one degree more.
abbrev pub read_back : ℤ → ℤ
read_back (pos n) = pos n
read_back (negsuc n) = sub_ℕ 0 n

-- From -63 to 64 degrees.
abbrev pub IsReadable : ℤ → Type 0
IsReadable (pos n) = n ≤ 64
IsReadable (negsuc n) = n < 63

double-pos : (a : ℕ) → pos 2 *ℤ pos a ≡ pos (2 * a)
unfolding ◌*ℤ◌
double-pos a = ground arith

double-negsuc : (k : ℕ) → pos 2 *ℤ negsuc k ≡ negsuc (2 * k + 1)
unfolding ◌*ℤ◌
double-negsuc k = ground arith

angle_of-pos : (a : ℕ) → a ≤ 64 → angle_of (low_byte (pos (2 * a))) ≡ pos a
unfolding angle_of
angle_of-pos a h = ground arith

angle_of-negsuc : (k : ℕ) → k < 63 → angle_of (low_byte (negsuc (2 * k + 1))) ≡ sub_ℕ 0 k
unfolding angle_of
angle_of-negsuc k h = ground arith

angle_of-low_byte : (a : ℤ) → IsReadable a → angle_of (low_byte (pos 2 *ℤ a)) ≡ read_back a
angle_of-low_byte (pos n) h = ap (λ v. angle_of (low_byte v)) (double-pos n) ∙ angle_of-pos n h
angle_of-low_byte (negsuc n) h =
    ap (λ v. angle_of (low_byte v)) (double-negsuc n) ∙ angle_of-negsuc n h

-- Where the ninth byte that the motor reports is the low byte of twice an angle from -63 to 64
-- degrees, in two's complement: an angle that is not negative is read as it is, and a negative one as
-- one degree more. Nothing is said of when the motor reports such a byte.
pub get_angle-low_byte :
    {W : Type 0} (u : Usb W) (w : W) (a : ℤ)
    → IsReadable a
    → (u.receive_control u.control_type_vendor 50 0 0 w).0 ≡ u.status_ok
    → (u.receive_control u.control_type_vendor 50 0 0 w).1 8 ≡ low_byte (pos 2 *ℤ a)
    → (w' : W) × (get_angle u w ≡ done (read_back a, w'))
unfolding get_angle get_information checked ◌then◌
get_angle-low_byte u w a readable ok reports = (
  (u.receive_control u.control_type_vendor 50 0 0 w).2,
  rw (ok, ==_refl u.status_ok, reports, angle_of-low_byte a readable) refl,
)
