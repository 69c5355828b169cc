-- ===== src/Following/Closest.antt =====
-- The unit that `processFrame` of Application.cpp orders about is the nearest to the touch.
use footscreen.Base.{
  ℕ, ◌<◌, ◌≡◌, refl, sym, ap, ◌∙◌, Bool, true, false, none, some, List, [], ◌∷◌, ◌++◌, map,
  Bool-cases, inl, inr, All, arith, append-nil, append_assoc, ◌%◌,
}
use footscreen.Floats.{Floats}
use footscreen.Framework.{done, ◌then◌}
use footscreen.Units.{GameUnit}
use footscreen.Game.{Game, own_unit_by_index}
use footscreen.Touch.{Point}
use footscreen.Following.{
  Orders, Screen, Nearest, distance_to, closer, find_nearest, unit_numbers, order_nearest,
  follow_touch,
}

-- The orders, kept in a list.
pub data Order (F : Type 0) : Type 0 where
  moved : ℕ → F → F → Order F
  highlighted : ℕ → Bool → Order F

abbrev pub recorded : {F : Type 0} → Orders F (List (Order F))
recorded = record {
  move_unit = λ i angle strength n. done (n ++ moved i angle strength ∷ []);
  highlight_unit = λ i b n. done (n ++ highlighted i b ∷ []);
}

regroup :
    {A : Type 0} (n : List A) (d : A) (ds : List A) (a b : A)
    → (((n ++ d ∷ []) ++ ds) ++ a ∷ []) ++ b ∷ [] ≡ n ++ (d ∷ (ds ++ a ∷ b ∷ []))
regroup [] d ds a b = ap (λ xs. d ∷ xs) (append_assoc ds (a ∷ []) (b ∷ []))
regroup (x ∷ xs) d ds a b = ap (λ ys. x ∷ ys) (regroup xs d ds a b)

module _ {F D I M : Type 0} (f : Floats F D) (screen : Screen F I M) (touch : Point F)
    (g : Game F D) (unit : ℕ → GameUnit F)
    (known : (i : ℕ) → i < 5 → own_unit_by_index i g ≡ some (unit i)) where
  -- How far the unit with a number is.
  abbrev pub far : ℕ → F
  far i = distance_to f screen recorded touch (unit i)

  abbrev pub dark : ℕ → Order F
  dark i = highlighted i false

  abbrev nearest : ℕ → Nearest F
  nearest j = record { min_distance_index = some j; min_distance = far j }

  abbrev pub away : ℕ → Order F
  away k = moved k (screen.atan2 (f.sub (unit k).y touch.y) (f.sub (unit k).x touch.x)) screen.tenth

  abbrev start : Nearest F
  start = record { min_distance_index = none; min_distance = f.lit 0 }

  closer-first : closer f screen recorded 0 (far 0) start ≡ nearest 0
  unfolding closer
  closer-first = refl

  find_nearest-step :
      (i : ℕ) (is : List ℕ) (best : Nearest F) (n : List (Order F))
      → i < 5
      → find_nearest f screen recorded touch g (i ∷ is) best n
        ≡ find_nearest f screen recorded touch g is
            (closer f screen recorded i (far i) best)
            (n ++ dark i ∷ [])
  unfolding find_nearest ◌then◌
  find_nearest-step i is best n hi = rw (known i hi, find_nearest) refl

  order_nearest-known :
      (k : ℕ) (n : List (Order F))
      → k < 5
      → order_nearest f screen recorded touch g (nearest k) n
        ≡ done ((n ++ away k ∷ []) ++ highlighted k true ∷ [])
  unfolding order_nearest ◌then◌
  order_nearest-known k n hk =
      let same : own_unit_by_index (k % 256) g ≡ some (unit k) =
        ap (λ x. own_unit_by_index x g) {x = k % 256} {y = k} (omega arith) ∙ known k hk in
      rw (same, order_nearest) refl

  module _ (trans : (a b c : F) → f.lt a b ≡ true → f.lt b c ≡ true → f.lt a c ≡ true)
      (irrefl : (a : F) → f.lt a a ≡ false) where
    not_closer : (a b c : F) → f.lt b c ≡ true → f.lt a c ≡ false → f.lt a b ≡ false
    not_closer a b c less not_less = elim (Bool-cases (f.lt a b)) [
      | inl more ↦ absurd (cc (trans a b c more less))
      | inr le ↦ le
    ]

    -- One turn: the new nearest is neither farther than the unit nor than the old one.
    closer-nearest :
        (i j : ℕ)
        → i < 5
        → j < 5
        → (k : ℕ) × (k < 5)
          × (closer f screen recorded i (far i) (nearest j) ≡ nearest k)
          × (f.lt (far i) (far k) ≡ false)
          × ((a : F) → f.lt a (far j) ≡ false → f.lt a (far k) ≡ false)
    unfolding closer
    closer-nearest i j hi hj = elim (Bool-cases (f.lt (far i) (far j))) [
      | inl less ↦ (i, hi, rw less refl, irrefl (far i), λ a h. not_closer a (far i) (far j) less h)
      | inr le ↦ (j, hj, rw le refl, le, λ a h. h)
    ]

    find_nearest-nearest :
        (is : List ℕ) (j : ℕ) (n : List (Order F))
        → All (λ i. i < 5) is
        → j < 5
        → (k : ℕ) × (k < 5)
          × (find_nearest f screen recorded touch g is (nearest j) n
              ≡ done (nearest k, n ++ map dark is))
          × All (λ i. f.lt (far i) (far k) ≡ false) is
          × ((a : F) → f.lt a (far j) ≡ false → f.lt a (far k) ≡ false)
    unfolding find_nearest ◌then◌
    find_nearest-nearest [] j n small hj =
        (j, hj, ap (λ m. done (nearest j, m)) (sym (append-nil n)), tt, λ a h. h)
    find_nearest-nearest (i ∷ is) j n small hj =
        let (k, hk, e, near, grow) = closer-nearest i j small.0 hj in
        let (k', hk', e', nears, grow') = find_nearest-nearest is k (n ++ dark i ∷ []) small.1 hk in
        (
          k',
          hk',
          find_nearest-step i is (nearest j) n small.0
              ∙ rw e (
                  e' ∙ ap (λ m. done (nearest k', m)) (append_assoc n (dark i ∷ []) (map dark is))),
          (grow' (far i) near, nears),
          λ a h. grow' a (grow a h),
        )

    -- If the player has the five units, every frame first takes the highlight off each, in order,
    -- and then orders one of them, which is not farther from the touch than any other, to move
    -- with a strength of a tenth in the direction from the touch to it, and highlights it; where
    -- the order of the distances is transitive and irreflexive.
    pub follow_touch-unit_numbers :
        (n : List (Order F))
        → (k : ℕ) × (k < 5)
          × (follow_touch f screen recorded touch g n
              ≡ done (n ++ (map dark unit_numbers ++ away k ∷ highlighted k true ∷ [])))
          × All (λ i. f.lt (far i) (far k) ≡ false) unit_numbers
    unfolding follow_touch ◌then◌
    follow_touch-unit_numbers n =
        let rest =
          find_nearest-nearest (1 ∷ 2 ∷ 3 ∷ 4 ∷ []) 0 (n ++ dark 0 ∷ [])
            (omega arith, (omega arith, (omega arith, (omega arith, tt)))) (omega arith) in
        let (k, hk, e, nears, grow) = rest in
        let others = dark 1 ∷ dark 2 ∷ dark 3 ∷ dark 4 ∷ [] in
        let found : find_nearest f screen recorded touch g unit_numbers start n
            ≡ done (nearest k, (n ++ dark 0 ∷ []) ++ others) =
          find_nearest-step 0 (1 ∷ 2 ∷ 3 ∷ 4 ∷ []) start n (omega arith)
          ∙ ap
              (λ b.
                find_nearest f screen recorded touch g (1 ∷ 2 ∷ 3 ∷ 4 ∷ []) b (n ++ dark 0 ∷ []))
              closer-first
          ∙ e in
        (
          k,
          hk,
          rw (found, follow_touch)
              (order_nearest-known k ((n ++ dark 0 ∷ []) ++ others) hk
                ∙ ap done (regroup n (dark 0) others (away k) (highlighted k true))),
          (grow (far 0) (irrefl (far 0)), nears),
        )
