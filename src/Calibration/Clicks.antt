-- ===== src/Calibration/Clicks.antt =====
-- The wizard of Calibration.cpp under any number of clicks.
use footscreen.Base.{
  ℕ, ◌-◌, ◌≤◌, ◌<◌, ◌≡◌, refl, ap, sym, ◌∙◌, true, false, List, [], ◌∷◌, ◌++◌, length, take, drop,
  ltb, leb, arith, length-append, append-nil, Bool-cases, inl, inr,
}
use footscreen.Calibration.Four.{take-nil, drop-nil, take-room, drop-room, take-full, drop-full}
use footscreen.Calibration.{Calibration, restart, handle_mouse_click}

-- The counts are those of the points and at most four, the flags say whether there are four, and the
-- camera's points come after the projector's.
pub record IsCalibration {P M : Type 0} (c : Calibration P M) : Type 0 where
  pub projector_count : c.number_of_projector_coordinates ≡ length c.projector_coordinates
  pub camera_count : c.number_of_camera_coordinates ≡ length c.camera_coordinates
  pub projector_le : c.number_of_projector_coordinates ≤ 4
  pub camera_le : c.number_of_camera_coordinates ≤ 4
  pub projector_flag : c.is_projector_calibrated ≡ leb 4 c.number_of_projector_coordinates
  pub camera_flag : c.is_camera_calibrated ≡ leb 4 c.number_of_camera_coordinates

abbrev pub click_all : {P M : Type 0} → List P → Calibration P M → Calibration P M
click_all [] c = c
click_all (p ∷ ps) c = click_all ps (handle_mouse_click p c)

module _ {P M : Type 0} where
  pub restart-IsCalibration : (c : Calibration P M) → IsCalibration (restart c)
  unfolding restart
  restart-IsCalibration c = record {
    projector_count = refl;
    camera_count = refl;
    projector_le = omega arith;
    camera_le = omega arith;
    projector_flag = refl;
    camera_flag = refl;
  }

  click-first :
      (p : P) (c : Calibration P M)
      → IsCalibration c
      → c.number_of_projector_coordinates < 4
      → IsCalibration (handle_mouse_click p c)
        × ((handle_mouse_click p c).projector_coordinates ≡ c.projector_coordinates ++ p ∷ [])
        × ((handle_mouse_click p c).camera_coordinates ≡ c.camera_coordinates)
  unfolding handle_mouse_click
  click-first p c v few =
      let n = c.number_of_projector_coordinates in
      let room : ltb n 4 ≡ true = ground arith in
      rw room (
        record {
          projector_count =
              omega (arith, v.projector_count, length-append c.projector_coordinates (p ∷ []));
          camera_count = v.camera_count;
          projector_le = omega arith;
          camera_le = v.camera_le;
          projector_flag = let flag = v.projector_flag in ground arith;
          camera_flag = v.camera_flag;
        },
        refl,
        refl,
      )

  click-second :
      (p : P) (c : Calibration P M)
      → IsCalibration c
      → 4 ≤ c.number_of_projector_coordinates
      → c.number_of_camera_coordinates < 4
      → IsCalibration (handle_mouse_click p c)
        × ((handle_mouse_click p c).projector_coordinates ≡ c.projector_coordinates)
        × ((handle_mouse_click p c).camera_coordinates ≡ c.camera_coordinates ++ p ∷ [])
  unfolding handle_mouse_click
  click-second p c v enough few =
      let n = c.number_of_projector_coordinates in
      let m = c.number_of_camera_coordinates in
      let full : ltb n 4 ≡ false = ground arith in
      let room : ltb m 4 ≡ true = ground arith in
      rw full (
        rw room (
          record {
            projector_count = v.projector_count;
            camera_count =
                omega (arith, v.camera_count, length-append c.camera_coordinates (p ∷ []));
            projector_le = v.projector_le;
            camera_le = omega arith;
            projector_flag = v.projector_flag;
            camera_flag = let flag = v.camera_flag in ground arith;
          },
          refl,
          refl,
        ))

  click-last :
      (p : P) (c : Calibration P M)
      → 4 ≤ c.number_of_projector_coordinates
      → 4 ≤ c.number_of_camera_coordinates
      → handle_mouse_click p c ≡ c
  unfolding handle_mouse_click
  click-last p c enough all = ground arith

pub few_lt : (m : ℕ) → ltb m 4 ≡ true → m < 4
few_lt m few = ground arith

pub four_le : (m : ℕ) → ltb m 4 ≡ false → 4 ≤ m
four_le m late = ground arith

module _ {P M : Type 0} where
  -- What is left to click of some points.
  abbrev pub Clicked : List P → Calibration P M → Calibration P M → Type 0
  Clicked ps c d =
      let a = c.projector_coordinates in
      let b = c.camera_coordinates in
      IsCalibration d
      × (d.projector_coordinates ≡ a ++ take (4 - length a) ps)
      × (d.camera_coordinates ≡ b ++ take (4 - length b) (drop (4 - length a) ps))

  pub click_all-Clicked :
      (ps : List P) (c : Calibration P M) → IsCalibration c → Clicked ps c (click_all ps c)
  click_all-Clicked [] c v =
      let a = c.projector_coordinates in
      let b = c.camera_coordinates in
      (
        v,
        sym (ap (◌++◌ a) (take-nil {A = P} (4 - length a)) ∙ append-nil a),
        sym (
            ap (λ xs. b ++ take (4 - length b) xs) (drop-nil {A = P} (4 - length a))
            ∙ ap (◌++◌ b) (take-nil {A = P} (4 - length b))
            ∙ append-nil b),
      )
  click_all-Clicked (p ∷ ps) c v =
      let n = c.number_of_projector_coordinates in
      let m = c.number_of_camera_coordinates in
      let a = c.projector_coordinates in
      let b = c.camera_coordinates in
      let d = handle_mouse_click p c in
      elim (Bool-cases (ltb n 4)) [
        | inl few ↦
            let less : n < 4 = ground arith in
            let (w, e, same) = click-first p c v less in
            let (out, f, g) = click_all-Clicked ps d w in
            let room : length a < 4 = omega (arith, v.projector_count) in
            (
              out,
              f ∙ take-room a d.projector_coordinates p ps e room,
              g
                  ∙ ap
                      (λ (x : List P).
                        x ++ take (4 - length x) (drop (4 - length d.projector_coordinates) ps))
                      same
                  ∙ ap (λ xs. b ++ take (4 - length b) xs)
                      (drop-room a d.projector_coordinates p ps e room),
            )
        | inr enough ↦
            let more : 4 ≤ n = ground arith in
            let full : 4 ≤ length a = omega (arith, v.projector_count) in
            elim (Bool-cases (ltb m 4)) [
              | inl few ↦
                  let (w, same, e) = click-second p c v more (ground arith) in
                  let (out, f, g) = click_all-Clicked ps d w in
                  let b' = d.camera_coordinates in
                  (
                    out,
                    f
                        ∙ ap (λ (x : List P). x ++ take (4 - length x) ps) same
                        ∙ take-full a ps full
                        ∙ sym (take-full a (p ∷ ps) full),
                    g
                        ∙ ap (λ (x : List P). b' ++ take (4 - length b') (drop (4 - length x) ps))
                            same
                        ∙ ap (λ xs. b' ++ take (4 - length b') xs) (drop-full a ps full)
                        ∙ take-room b b' p ps e (omega (arith, v.camera_count, (few_lt m few)))
                        ∙ ap (λ xs. b ++ take (4 - length b) xs) (sym (drop-full a (p ∷ ps) full)),
                  )
              | inr all ↦
                  let done : 4 ≤ m = ground arith in
                  let full' : 4 ≤ length b = omega (arith, v.camera_count) in
                  let (out, f, g) = click_all-Clicked ps c v in
                  let stays : click_all (p ∷ ps) c ≡ click_all ps c =
                    ap (click_all ps) (click-last p c more done) in
                  (
                    rw stays out,
                    ap (λ (x : Calibration P M). x.projector_coordinates) stays
                        ∙ f
                        ∙ take-full a ps full
                        ∙ sym (take-full a (p ∷ ps) full),
                    ap (λ (x : Calibration P M). x.camera_coordinates) stays
                        ∙ g
                        ∙ ap (λ xs. b ++ take (4 - length b) xs) (drop-full a ps full)
                        ∙ take-full b ps full'
                        ∙ sym (take-full b (p ∷ ps) full')
                        ∙ ap (λ xs. b ++ take (4 - length b) xs) (sym (drop-full a (p ∷ ps) full)),
                  )
            ]
      ]

  -- From a restart on, the first four clicks are the projector's points and the next four the
  -- camera's, in order; any further click changes nothing.
  pub click_all-restart :
      (ps : List P) (c : Calibration P M)
      → let d = click_all ps (restart c) in
        (d.projector_coordinates ≡ take 4 ps) × (d.camera_coordinates ≡ take 4 (drop 4 ps))
  unfolding restart
  click_all-restart ps c =
      let (v, e, f) = click_all-Clicked ps (restart c) (restart-IsCalibration c) in (e, f)
