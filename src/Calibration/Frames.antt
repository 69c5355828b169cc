-- ===== src/Calibration/Frames.antt =====
-- A frame of the wizard of Calibration.cpp after any number of clicks.
use footscreen.Base.{
  ℕ, zero, suc, ◌-◌, ◌%◌, ◌≤◌, ◌<◌, ◌≡◌, refl, ap, sym, ◌∙◌, Bool, true, false, not, Option, none,
  some, List, [], ◌∷◌, length, get_elem?, drop, ltb, leb, if◌then◌else◌, is_some, arith,
  length-take, length-drop, lt→leb, le→leb, min, Bool-cases, Option-cases, inl, inr,
}
use footscreen.Calibration.{
  Calibration, CircleName, circle_names, restart, handle_mouse_click, mouse_callback, target_points,
  compute_homography, calibrate, loop,
}
use footscreen.Calibration.Clicks.{
  IsCalibration, click_all, click_all-Clicked, restart-IsCalibration, few_lt, four_le,
}

-- OpenCV makes a transformation of four points into four points.
abbrev pub TakesFour : {P M : Type 0} → (List P → List P → Option M) → Type 0
TakesFour {P} transform =
    (a b : List P) → length a ≡ 4 → length b ≡ 4 → is_some (transform a b) ≡ true

circle_names-get_elem? :
    (i : ℕ) → i < 4 → (name : CircleName) × (get_elem? circle_names i ≡ some name)
circle_names-get_elem? zero h = (_, refl)
circle_names-get_elem? (suc zero) h = (_, refl)
circle_names-get_elem? (suc (suc zero)) h = (_, refl)
circle_names-get_elem? (suc (suc (suc zero))) h = (_, refl)
circle_names-get_elem? (suc (suc (suc (suc i)))) h = absurd (omega arith)

module _ {P M : Type 0} where
  click-has_terminated :
      (p : P) (c : Calibration P M) → (handle_mouse_click p c).has_terminated ≡ c.has_terminated
  unfolding handle_mouse_click
  click-has_terminated p c = ground arith

  click_all-has_terminated :
      (ps : List P) (c : Calibration P M) → (click_all ps c).has_terminated ≡ c.has_terminated
  click_all-has_terminated [] c = refl
  click_all-has_terminated (p ∷ ps) c =
      click_all-has_terminated ps (handle_mouse_click p c) ∙ click-has_terminated p c

module _ {P : Type 0} where
  -- The points at which the left button went down.
  abbrev pub presses : List (Bool × P) → List P
  presses [] = []
  presses ((true, p) ∷ es) = p ∷ presses es
  presses ((false, p) ∷ es) = presses es

module _ {P M : Type 0} where
  -- Some events, one after the other.
  abbrev pub mouse_all : List (Bool × P) → Calibration P M → Calibration P M
  mouse_all [] c = c
  mouse_all ((pressed, p) ∷ es) c = mouse_all es (mouse_callback pressed p c)

  mouse_all-presses :
      (es : List (Bool × P)) (c : Calibration P M) → mouse_all es c ≡ click_all (presses es) c
  unfolding mouse_callback
  mouse_all-presses [] c = refl
  mouse_all-presses ((true, p) ∷ es) c = mouse_all-presses es (handle_mouse_click p c)
  mouse_all-presses ((false, p) ∷ es) c = mouse_all-presses es c

module _ {P M : Type 0} (point : ℕ → ℕ → P) (transform : List P → List P → Option M)
    (law : TakesFour transform) where
  loop-projector :
      (c : Calibration P M) (name : CircleName)
      → c.is_projector_calibrated ≡ false
      → get_elem? circle_names c.number_of_projector_coordinates ≡ some name
      → loop point transform c ≡ some (c, some name, not c.has_terminated)
  unfolding loop calibrate
  loop-projector c name flag found = rw (flag, found) refl

  loop-camera :
      (c : Calibration P M) (name : CircleName)
      → c.is_projector_calibrated ≡ true
      → c.is_camera_calibrated ≡ false
      → get_elem? circle_names c.number_of_camera_coordinates ≡ some name
      → loop point transform c ≡ some (c, some name, not c.has_terminated)
  unfolding loop calibrate
  loop-camera c name flag flag' found = rw (flag, flag', found) refl

  transform-some : (a b : List P) → length a ≡ 4 → length b ≡ 4 → (m : M) × (transform a b ≡ some m)
  transform-some a b h k = elim (Option-cases (transform a b)) [
    | inl e ↦ absurd (let l = law a b h k in cc)
    | inr (m, e) ↦ (m, e)
  ]

  loop-homography :
      (c : Calibration P M)
      → c.is_projector_calibrated ≡ true
      → c.is_camera_calibrated ≡ true
      → length c.projector_coordinates ≡ 4
      → length c.camera_coordinates ≡ 4
      → (d : Calibration P M) × (loop point transform c ≡ some (d, none, false))
        × (d.has_terminated ≡ true)
  unfolding loop calibrate compute_homography
  loop-homography c flag flag' h k =
      let target = target_points point transform in
      let (pp, e₁) = transform-some c.projector_coordinates target h refl in
      let (tp, e₂) = transform-some target c.projector_coordinates refl h in
      let (tc, e₃) = transform-some target c.camera_coordinates refl k in
      let (ct, e₄) = transform-some c.camera_coordinates target k refl in
      (
        record c {
          has_terminated = true;
          projector_to_physical = pp;
          physical_to_projector = tp;
          physical_to_camera = tc;
          camera_to_physical = ct;
        },
        rw (flag, flag', e₁, e₂, e₃, e₄) refl,
        refl,
      )

  -- What a frame comes to after `k` clicks.
  abbrev Frame : Calibration P M → ℕ → Type 0
  Frame c k =
      (d : Calibration P M) × (loop point transform c
        ≡ some (d, (if leb 8 k then none else get_elem? circle_names (k % 4)), not (leb 8 k)))
      × (d.has_terminated ≡ leb 8 k)

  module _ (d : Calibration P M) (k : ℕ) (v : IsCalibration d) (on : d.has_terminated ≡ false)
      (n : length d.projector_coordinates ≡ min 4 k)
      (m : length d.camera_coordinates ≡ min 4 (k - 4)) where
    Frame-first : ltb k 4 ≡ true → Frame d k
    Frame-first early =
        let (name, found) = circle_names-get_elem? k (few_lt k early) in
        let turn : get_elem? circle_names (k % 4) ≡ some name =
          ap (get_elem? circle_names) {x = k % 4} {y = k} (omega (arith, few_lt k early)) ∙ found in
        let later : leb 8 k ≡ false = ground arith in
        let flag : d.is_projector_calibrated ≡ false =
          v.projector_flag
          ∙ lt→leb 4 d.number_of_projector_coordinates
              (omega (arith, v.projector_count, few_lt k early)) in
        let at_k : get_elem? circle_names d.number_of_projector_coordinates ≡ some name =
          ap (get_elem? circle_names) {x = d.number_of_projector_coordinates} {y = k}
            (omega (arith, v.projector_count, few_lt k early))
          ∙ found in
        (
          d,
          rw later (loop-projector d name flag at_k ∙ (λ i. some (d, sym turn i, not (on i)))),
          rw later on,
        )

    projector-done : 4 ≤ k → d.is_projector_calibrated ≡ true
    projector-done four =
        v.projector_flag
        ∙ le→leb 4 d.number_of_projector_coordinates (omega (arith, v.projector_count))

    Frame-second : 4 ≤ k → ltb k 8 ≡ true → Frame d k
    Frame-second four early =
        let flag = projector-done four in
        let less : k < 8 = ground arith in
        let (name, found) = circle_names-get_elem? (k - 4) (omega arith) in
        let turn : get_elem? circle_names (k % 4) ≡ some name =
          ap (get_elem? circle_names) {x = k % 4} {y = k - 4} (omega arith) ∙ found in
        let later : leb 8 k ≡ false = ground arith in
        let flag' : d.is_camera_calibrated ≡ false =
          v.camera_flag ∙ lt→leb 4 d.number_of_camera_coordinates (omega (arith, v.camera_count)) in
        let at_k : get_elem? circle_names d.number_of_camera_coordinates ≡ some name =
          ap (get_elem? circle_names) {x = d.number_of_camera_coordinates} {y = k - 4}
            (omega (arith, v.camera_count))
          ∙ found in
        (
          d,
          rw later (loop-camera d name flag flag' at_k ∙ (λ i. some (d, sym turn i, not (on i)))),
          rw later on,
        )

    Frame-last : ltb k 8 ≡ false → Frame d k
    Frame-last end =
        let eight : 8 ≤ k = ground arith in
        let four : 4 ≤ k = omega arith in
        let flag = projector-done four in
        let flag' : d.is_camera_calibrated ≡ true =
          v.camera_flag ∙ le→leb 4 d.number_of_camera_coordinates (omega (arith, v.camera_count)) in
        let (out, done, ended) = loop-homography d flag flag' (omega arith) (omega arith) in
        (out, rw (le→leb 8 k eight) done, rw (le→leb 8 k eight) ended)

  loop-click_all :
      (ps : List P) (c : Calibration P M)
      → (d : Calibration P M) × (loop point transform (click_all ps (restart c))
          ≡ some (
            d,
            (if leb 8 (length ps) then none else get_elem? circle_names (length ps % 4)),
            not (leb 8 (length ps)),
          ))
        × (d.has_terminated ≡ leb 8 (length ps))
  unfolding restart
  loop-click_all ps c =
      let d = click_all ps (restart c) in
      let k = length ps in
      let (v, e, f) = click_all-Clicked ps (restart c) (restart-IsCalibration c) in
      let on : d.has_terminated ≡ false = click_all-has_terminated ps (restart c) in
      let n : length d.projector_coordinates ≡ min 4 k = ap length e ∙ length-take 4 ps in
      let m : length d.camera_coordinates ≡ min 4 (k - 4) =
        ap length f ∙ length-take 4 (drop 4 ps) ∙ ap (min 4) (length-drop 4 ps) in
      elim (Bool-cases (ltb k 4)) [
        | inl early ↦ Frame-first d k v on n m early
        | inr late ↦ elim (Bool-cases (ltb k 8)) [
          | inl early ↦ Frame-second d k v on n m (four_le k late) early
          | inr end ↦ Frame-last d k v on n m end
        ]
      ]

  -- After any events of the mouse on a restarted wizard a frame is drawn without a fault, and it
  -- terminates the wizard exactly if the left button went down at least eight times; a wizard that goes
  -- on asks for the circle whose turn it is.
  pub loop-mouse_all :
      (es : List (Bool × P)) (c : Calibration P M)
      → let k = length (presses es) in
        (d : Calibration P M) × (loop point transform (mouse_all es (restart c))
          ≡ some (d, (if leb 8 k then none else get_elem? circle_names (k % 4)), not (leb 8 k)))
        × (d.has_terminated ≡ leb 8 k)
  loop-mouse_all es c =
      let (d, e, ended) = loop-click_all (presses es) c in
      (d, ap (loop point transform) (mouse_all-presses es (restart c)) ∙ e, ended)
