-- ===== src/Application/Turns.antt =====
-- A turn of the loop of main.cpp: it comes to an end, and only the key `q` finishes the program.
use mathlib.Core.Path.{subst}
use footscreen.Base.{
  is_some, none, some, ℕ, ◌≡◌, refl, Bool, true, false, Option, List, ◌==◌, if◌then◌else◌,
  Bool-cases, Option-cases, ◌||◌, inl, inr,
}
use footscreen.Floats.{Floats}
use footscreen.Framework.{Result, done, ◌then◌}
use footscreen.Framework.Returns.{
  Halts, Any, Halts-done, Halts-fault, Halts-of_option, Halts-then, Halts-after, Halts-if,
}
use footscreen.Application.Ending.{
  IsResponsive, acquire-Halts, calibrate_touch-Halts, detect_touch-Halts, follow_touch-Halts,
}
use footscreen.Framework.Skeleton.{Drawing}
use footscreen.Following.{Orders, Screen}
use footscreen.Game.Rendering.{render}
use footscreen.Touch.{Point, Vision, acquire, flip_horizontally}
use footscreen.Application.{
  Application, key_quit, handle_key, handle_other_key, run_calibration, run_loop, send_order,
  process_frame, process_skeletons, run_frame, start_server, make_screenshots,
}

-- Not finished, or finished, as told.
abbrev pub Says : {F D I M W G C N : Type 0} → Bool → Application F D I M W G C N → Type 0
Says b a = a.is_finished ≡ b

module _ {F D I M W G C N S J : Type 0} (f : Floats F D) (v : Vision I S F D)
    (screen : Screen F I M) (orders : Orders F N) (get_frame : W → I → I → Result (W × I × I))
    (point : ℕ → ℕ → Point F) (transform : List (Point F) → List (Point F) → Option M)
    (drawing : Drawing G J (Point F) I) (responsive : IsResponsive orders get_frame) where
  run_calibration-Says :
      (a : Application F D I M W G C N)
      → Halts
          (Says a.is_finished)
          (run_calibration f v screen orders get_frame point transform drawing a)
  unfolding run_calibration
  run_calibration-Says a =
      Halts-after _ _ _
        (Halts-if _ _ _ _ (acquire-Halts f v screen orders get_frame responsive a.touch)
          (Halts-done _ _ tt))
        (λ t. Halts-after _ _ _ (Halts-of_option _) (λ c. Halts-done _ _ refl))

  send_order-Says :
      (order : N → Result N) (a : Application F D I M W G C N)
      → ((n : N) → Halts Any (order n))
      → Halts
          (Says a.is_finished)
          (send_order f v screen orders get_frame point transform drawing order a)
  unfolding send_order
  send_order-Says order a answers = elim (Option-cases a.game_client) [
    | inl null ↦ rw (null, send_order) (Halts-done _ _ refl)
    | inr (g, known) ↦
        rw (known, send_order) (Halts-after _ _ _ (answers a.network) (λ n. Halts-done _ _ refl))
  ]

  process_frame-Says :
      (a : Application F D I M W G C N)
      → Halts
          (Says a.is_finished)
          (process_frame f v screen orders get_frame point transform drawing a)
  unfolding process_frame
  process_frame-Says a =
      Halts-after _ _ _
        (detect_touch-Halts f v screen orders get_frame responsive (flip_horizontally f v a.touch))
        (λ t. elim (Option-cases a.game_client) [
          | inl null ↦ rw null (Halts-fault _)
          | inr (g, known) ↦ rw known (
              Halts-after _ _ _
                (follow_touch-Halts f v screen orders get_frame responsive _ g a.network)
                (λ n. Halts-done _ _ refl))
        ])

  process_skeletons-Says :
      (b : Bool) (a : Application F D I M W G C N)
      → Says b a
      → Says b (process_skeletons f v screen orders get_frame point transform drawing a)
  unfolding process_skeletons
  process_skeletons-Says b a e = elim (Option-cases a.skeleton_tracker) [
    | inl null ↦ rw (null, process_skeletons) e
    | inr (t, known) ↦ rw (known, process_skeletons) e
  ]

  run_frame-Says :
      (a : Application F D I M W G C N)
      → Halts (Says a.is_finished) (run_frame f v screen orders get_frame point transform drawing a)
  unfolding run_frame
  run_frame-Says a =
      let image : I = elim a.game_client [
        | none ↦ a.game_image
        | some g ↦ screen.draw (render f g) a.game_image
      ] in
      let b = record a { game_image = image } in
      Halts-then (Says a.is_finished) (Says a.is_finished)
        (if is_some a.touch.depth_camera
          then (acquire f v get_frame a.touch then λ t.
              process_frame f v screen orders get_frame point transform drawing
                (record b { touch = t }))
          else done b)
        (λ c. done (process_skeletons f v screen orders get_frame point transform drawing c))
        (Halts-if _ _ _ _
          (Halts-after _ _ _ (acquire-Halts f v screen orders get_frame responsive a.touch)
            (λ t. process_frame-Says (record b { touch = t })))
          (Halts-done _ b refl))
        (λ c e.
          Halts-done _ (process_skeletons f v screen orders get_frame point transform drawing c)
            (process_skeletons-Says a.is_finished c e))

  start_server-Says :
      (a : Application F D I M W G C N)
      → Says a.is_finished (start_server f v screen orders get_frame point transform drawing a)
  unfolding start_server
  start_server-Says a = elim (Option-cases a.game_server) [
    | inl null ↦ rw (null, start_server) refl
    | inr (s, known) ↦ rw (known, start_server) refl
  ]

  make_screenshots-Says :
      (a : Application F D I M W G C N)
      → (make_screenshots f v screen orders get_frame point transform drawing a).is_finished
        ≡ a.is_finished
  unfolding make_screenshots
  make_screenshots-Says a = refl

  handle_other_key-Says :
      (key : ℕ) (a : Application F D I M W G C N)
      → Halts
          (Says a.is_finished)
          (handle_other_key f v screen orders get_frame point transform drawing key a)
  unfolding handle_other_key
  handle_other_key-Says key a =
      Halts-if (Says a.is_finished) (key == 112) _ _ (Halts-done _ _ (make_screenshots-Says a)) (
        Halts-if _ (key == 114) _ _ (Halts-done _ _ (start_server-Says a)) (
          Halts-if _ (key == 119) _ _
            (send_order-Says (orders.move_unit 0 screen.half_pi (f.lit 1)) a
              (responsive.moves 0 screen.half_pi (f.lit 1)))
            (Halts-if _ (key == 97) _ _
              (send_order-Says (orders.move_unit 0 screen.pi (f.lit 1)) a
                (responsive.moves 0 screen.pi (f.lit 1)))
              (Halts-if _ (key == 115) _ _
                (send_order-Says (orders.move_unit 0 (f.mul (f.lit 3) screen.half_pi) (f.lit 1)) a
                  (responsive.moves 0 (f.mul (f.lit 3) screen.half_pi) (f.lit 1)))
                (Halts-if _ (key == 100) _ _
                  (send_order-Says (orders.move_unit 0 (f.lit 0) (f.lit 1)) a
                    (responsive.moves 0 (f.lit 0) (f.lit 1)))
                  (Halts-if _ (key == 32) _ _
                    (send_order-Says (orders.move_unit 0 (f.lit 0) (f.lit 0)) a
                      (responsive.moves 0 (f.lit 0) (f.lit 0)))
                    (Halts-if _ (key == 104) _ _
                      (send_order-Says (orders.highlight_unit 0 true) a
                        (responsive.highlights 0 true))
                      (Halts-if _ (key == 117) _ _
                        (send_order-Says (orders.highlight_unit 0 false) a
                          (responsive.highlights 0 false))
                        (Halts-if _ (key == 99) _ _
                          (Halts-after _ _ _
                            (calibrate_touch-Halts f v screen orders get_frame responsive a.touch)
                            (λ t. Halts-done _ _ refl))
                          (Halts-done _ a refl))))))))))

  handle_key-Says :
      (key : ℕ) (a : Application F D I M W G C N)
      → Halts
          (Says (key == key_quit || a.is_finished))
          (handle_key f v screen orders get_frame point transform drawing key a)
  unfolding handle_key
  handle_key-Says key a = elim (Bool-cases (key == key_quit)) [
    | inl quit ↦ rw (quit, handle_key) (Halts-done _ _ refl)
    | inr other ↦ rw (other, handle_key) (handle_other_key-Says key a)
  ]

  calibrating :
      (key : ℕ) (a : Application F D I M W G C N)
      → Halts (Says (key == key_quit || a.is_finished)) (
          run_calibration f v screen orders get_frame point transform drawing
            (if key == key_quit then record a { is_finished = true } else a))
  calibrating key a = elim (Bool-cases (key == key_quit)) [
    | inl quit ↦ rw quit (run_calibration-Says (record a { is_finished = true }))
    | inr other ↦ rw other (run_calibration-Says a)
  ]

  -- Only `q` finishes the program, and it does whatever the state.
  pub run_loop-Says :
      (key : ℕ) (a : Application F D I M W G C N)
      → Halts
          (Says (key == key_quit || a.is_finished))
          (run_loop f v screen orders get_frame point transform drawing key a)
  unfolding run_loop
  run_loop-Says key a = Halts-if _ _ _ _ (calibrating key a) (
      Halts-then (Says (key == key_quit || a.is_finished)) _ _ _ (handle_key-Says key a) (λ b e.
        Halts-if _ _ _ _ (Halts-done _ _ e) (
          subst
            (λ x. Halts (Says x) (run_frame f v screen orders get_frame point transform drawing b))
            e (run_frame-Says b))))
