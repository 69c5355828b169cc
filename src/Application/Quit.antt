-- ===== src/Application/Quit.antt =====
-- How the loop of main.cpp ends: by the key `q`, by an exception, or with the keys.
use mathlib.Core.Path.{subst}
use footscreen.Base.{
  ℕ, ◌≡◌, refl, sym, ap, ◌∙◌, Bool, true, false, Option, List, [], ◌∷◌, ◌++◌, ◌==◌, if◌then◌else◌,
  ◌||◌, All,
}
use footscreen.Floats.{Floats}
use footscreen.Framework.{Result, done, ◌then◌}
use footscreen.Framework.Returns.{Halts, Halts-done, Halts-then}
use footscreen.Application.Ending.{IsResponsive}
use footscreen.Framework.Skeleton.{Drawing}
use footscreen.Following.{Orders, Screen}
use footscreen.Touch.{Point, Vision}
use footscreen.Application.{Application, key_quit, run_loop, run_main}
use footscreen.Application.Turns.{Says, run_loop-Says}

if_false : {A : Type 0} (b : Bool) (x y : A) → b ≡ false → (if b then x else y) ≡ y
if_false true x y e = absurd (cc)
if_false false x y e = refl

module _ {F D I M W G C N S J : Type 0} (f : Floats F D) (v : Vision I S F D)
    (screen : Screen F I M) (orders : Orders F N) (get_frame : W → I → I → Result (W × I × I))
    (point : ℕ → ℕ → Point F) (transform : List (Point F) → List (Point F) → Option M)
    (drawing : Drawing G J (Point F) I) (responsive : IsResponsive orders get_frame) where
  run_main-stopped :
      (keys : List ℕ) (a : Application F D I M W G C N)
      → a.is_finished ≡ true
      → run_main f v screen orders get_frame point transform drawing keys a ≡ done (a, keys)
  unfolding run_main
  run_main-stopped [] a off = refl
  run_main-stopped (key ∷ keys) a off = rw off refl

  abbrev loop_of : ℕ → Application F D I M W G C N → Result (Application F D I M W G C N)
  loop_of = run_loop f v screen orders get_frame point transform drawing

  run_main-turn :
      (key : ℕ) (keys : List ℕ) (a : Application F D I M W G C N)
      → a.is_finished ≡ false
      → run_main f v screen orders get_frame point transform drawing (key ∷ keys) a
        ≡ (loop_of key a then run_main f v screen orders get_frame point transform drawing keys)
  unfolding run_main
  run_main-turn key keys a on = if_false a.is_finished _ _ on

  -- Finished, with some keys left.
  abbrev pub Stops : List ℕ → Application F D I M W G C N × List ℕ → Type 0
  Stops after p = (p.0.is_finished ≡ true) × (p.1 ≡ after)

  -- On keys with a `q` among them, if the camera and the orders come to an end, so does the loop of
  -- `main`: a frame throws or follows a null pointer, or the program has finished and exactly the
  -- keys after the first `q` are left, since the keys before it leave the program running.
  pub run_main-quit :
      (before after : List ℕ) (a : Application F D I M W G C N)
      → All (λ k. (k == key_quit) ≡ false) before
      → a.is_finished ≡ false
      → Halts (Stops after) (
          run_main f v screen orders get_frame point transform drawing
            (before ++ key_quit ∷ after)
            a)
  run_main-quit [] after a others on =
      subst (Halts (Stops after)) (sym (run_main-turn key_quit after a on)) (
        Halts-then (Says true) (Stops after) _ _
          (run_loop-Says f v screen orders get_frame point transform drawing responsive key_quit a)
          (λ b e.
            subst (Halts (Stops after)) (sym (run_main-stopped after b e))
              (Halts-done (Stops after) (b, after) (e, refl))))
  run_main-quit (key ∷ keys) after a others on =
      subst (Halts (Stops after)) (sym (run_main-turn key (keys ++ key_quit ∷ after) a on)) (
        Halts-then (Says false) (Stops after) _ _
          (subst (λ x. Halts (Says x) (loop_of key a)) (ap (λ x. x || a.is_finished) others.0 ∙ on)
            (run_loop-Says f v screen orders get_frame point transform drawing responsive key a))
          (λ b e. run_main-quit keys after b others.1 e))
