-- ===== src/Game/Collisions.antt =====
-- The collision loop of `Game::proceed`: which units it kills.
pub mod Danger
use footscreen.Base.{
  ℕ, zero, suc, ◌+◌, ◌≤◌, ◌<◌, ◌≡◌, ◌≢◌, ◌⊎◌, inl, inr, refl, sym, ap, ◌∙◌, Bool, true, false, not,
  ◌&&◌, ◌||◌, Option, none, some, List, [], ◌∷◌, length, get_elem?, ◌==◌, if◌then◌else◌, arith,
  Bool-cases, Option-cases,
}
use footscreen.Floats.{Floats}
use footscreen.Units.{GameUnit, set_living, collides_with_unit}
use footscreen.Game.{killed, kill, colliding, collide, collide_row, collide_rows, collide_all}

module _ {F : Type 0} where
  -- Whether there is a living unit at an index, and whether there is a sheep.
  abbrev pub living : ℕ → List (GameUnit F) → Bool
  living k us = elim (get_elem? us k) [ none ↦ false | some u ↦ u.is_living ]

  abbrev pub is_sheep : ℕ → List (GameUnit F) → Bool
  is_sheep k us = elim (get_elem? us k) [ none ↦ false | some u ↦ not u.is_hunting ]

module _ {F D : Type 0} (f : Floats F D) where
  -- What stands at an index after a kill.
  get_elem?-kill :
      (i k : ℕ) (us : List (GameUnit F))
      → get_elem? (kill f i us) k
        ≡ elim (get_elem? us k) [ none ↦ none | some u ↦ some (if i == k then killed f u else u) ]
  unfolding kill
  get_elem?-kill i k [] = refl
  get_elem?-kill zero zero (v ∷ us) = ground arith
  get_elem?-kill zero (suc k) (v ∷ us) = ground arith
  get_elem?-kill (suc i) zero (v ∷ us) = ground arith
  get_elem?-kill (suc i) (suc k) (v ∷ us) = ground (arith, get_elem?-kill i k us)

  -- What a kill leaves alone: who collides with whom, and who is a sheep.
  pub record IsSame (us vs : List (GameUnit F)) : Type 0 where
    pub same_colliding : (i j : ℕ) → colliding f i j vs ≡ colliding f i j us
    pub same_sheep : (k : ℕ) → is_sheep k vs ≡ is_sheep k us

  IsSame-trans : (us vs ws : List (GameUnit F)) → IsSame us vs → IsSame vs ws → IsSame us ws
  IsSame-trans us vs ws s t = record {
    same_colliding = λ i j. t.same_colliding i j ∙ s.same_colliding i j;
    same_sheep = λ k. t.same_sheep k ∙ s.same_sheep k;
  }

  collides-killed :
      (u v : GameUnit F)
      → (collides_with_unit f (killed f u) v ≡ collides_with_unit f u v)
        × (collides_with_unit f v (killed f u) ≡ collides_with_unit f v u)
        × (collides_with_unit f (killed f u) (killed f v) ≡ collides_with_unit f u v)
  unfolding collides_with_unit killed set_living
  collides-killed u v = ground arith

  kill-IsSame : (i : ℕ) (us : List (GameUnit F)) → IsSame us (kill f i us)
  unfolding colliding killed set_living collides_with_unit
  kill-IsSame i us = record {
    same_colliding = λ a b. ground (arith, get_elem?-kill i a us, get_elem?-kill i b us);
    same_sheep = λ k. ground (arith, get_elem?-kill i k us);
  }

  living-kill :
      (i k : ℕ) (us : List (GameUnit F))
      → living k (kill f i us) ≡ (living k us && not (i == k && is_sheep k us))
  unfolding killed set_living
  living-kill i k us = ground (arith, get_elem?-kill i k us)

  collide-IsSame : (i j : ℕ) (us : List (GameUnit F)) → IsSame us (collide f i j us)
  unfolding collide
  collide-IsSame i j us = elim (Bool-cases (i == j)) [
    | inl e ↦ rw e record { same_colliding = λ a b. refl; same_sheep = λ k. refl }
    | inr ne ↦ rw ne (elim (Bool-cases (colliding f i j us)) [
      | inl hit ↦ rw hit (IsSame-trans _ _ _ (kill-IsSame i us) (kill-IsSame j (kill f i us)))
      | inr miss ↦ rw miss record { same_colliding = λ a b. refl; same_sheep = λ k. refl }
    ])
  ]

  -- Whether a round for the units `i` and `j` kills unit `k`.
  abbrev pub blamed : ℕ → ℕ → ℕ → List (GameUnit F) → Bool
  blamed i j k us = not (i == j) && (colliding f i j us && (is_sheep k us && (i == k || j == k)))

  pub blamed_row : ℕ → ℕ → ℕ → ℕ → List (GameUnit F) → Bool
  blamed_row i zero j k us = false
  blamed_row i (suc n) j k us = blamed i j k us || blamed_row i n (j + 1) k us

  pub blamed_rows : ℕ → ℕ → ℕ → ℕ → List (GameUnit F) → Bool
  blamed_rows m zero i k us = false
  blamed_rows m (suc n) i k us = blamed_row i m 0 k us || blamed_rows m n (i + 1) k us

  living-collide :
      (i j k : ℕ) (us : List (GameUnit F))
      → living k (collide f i j us) ≡ (living k us && not (blamed i j k us))
  unfolding collide
  living-collide i j k us =
      let sheep = (kill-IsSame i us).same_sheep k in
      ground (arith, sheep, living-kill i k us, living-kill j k (kill f i us))

  blamed_row-same :
      (i n j k : ℕ) (us vs : List (GameUnit F))
      → IsSame us vs
      → blamed_row i n j k vs ≡ blamed_row i n j k us
  unfolding blamed_row
  blamed_row-same i zero j k us vs s = refl
  blamed_row-same i (suc n) j k us vs s =
      rw (s.same_colliding i j, s.same_sheep k, blamed_row-same i n (j + 1) k us vs s)

  blamed_rows-same :
      (m n i k : ℕ) (us vs : List (GameUnit F))
      → IsSame us vs
      → blamed_rows m n i k vs ≡ blamed_rows m n i k us
  unfolding blamed_rows
  blamed_rows-same m zero i k us vs s = refl
  blamed_rows-same m (suc n) i k us vs s =
      rw (blamed_row-same i m 0 k us vs s, blamed_rows-same m n (i + 1) k us vs s)

  and-not-or : (a b c : Bool) → (a && not b && not c) ≡ (a && not (b || c))
  and-not-or a b c = ground arith

  living-collide_row :
      (i n j k : ℕ) (us : List (GameUnit F))
      → (living k (collide_row f i n j us) ≡ (living k us && not (blamed_row i n j k us)))
        × IsSame us (collide_row f i n j us)
  unfolding collide_row blamed_row
  living-collide_row i zero j k us =
      (ground arith, record { same_colliding = λ a b. refl; same_sheep = λ k. refl })
  living-collide_row i (suc n) j k us =
      let next = collide f i j us in
      let s = collide-IsSame i j us in
      let (ih, t) = living-collide_row i n (j + 1) k next in
      (
        ih
            ∙ ap (λ b. living k next && not b) (blamed_row-same i n (j + 1) k us next s)
            ∙ ap (λ b. b && not (blamed_row i n (j + 1) k us)) (living-collide i j k us)
            ∙ and-not-or (living k us) (blamed i j k us) (blamed_row i n (j + 1) k us),
        IsSame-trans _ _ _ s t,
      )

  pub living-collide_rows :
      (m n i k : ℕ) (us : List (GameUnit F))
      → living k (collide_rows f m n i us) ≡ (living k us && not (blamed_rows m n i k us))
  unfolding collide_rows blamed_rows
  living-collide_rows m zero i k us = ground arith
  living-collide_rows m (suc n) i k us =
      let next = collide_row f i m 0 us in
      let (row, s) = living-collide_row i m 0 k us in
      living-collide_rows m n (i + 1) k next
      ∙ ap (λ b. living k next && not b) (blamed_rows-same m n (i + 1) k us next s)
      ∙ ap (λ b. b && not (blamed_rows m n (i + 1) k us)) row
      ∙ and-not-or (living k us) (blamed_row i m 0 k us) (blamed_rows m n (i + 1) k us)
