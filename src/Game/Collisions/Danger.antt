-- ===== src/Game/Collisions/Danger.antt =====
-- The units that the collision loop of `Game::proceed` kills, without the loop.
use footscreen.Base.{
  ℕ, zero, suc, ◌+◌, ◌<◌, ◌≡◌, ◌≢◌, ◌⊎◌, ◌↔◌, inl, inr, refl, ap, ◌∙◌, Bool, true, not, ◌&&◌, ◌||◌,
  some, List, [], ◌∷◌, length, get_elem?, ◌==◌, arith, Bool-cases, Option-cases,
}
use footscreen.Floats.{Floats}
use footscreen.Units.{GameUnit}
use footscreen.Game.{colliding, collide_all, collide_rows}
use footscreen.Game.Collisions.{
  living, is_sheep, blamed, blamed_row, blamed_rows, living-collide_rows,
}

module _ {F D : Type 0} (f : Floats F D) where
  -- A sheep that collides with another unit, one way round or the other.
  pub record IsEndangered (k : ℕ) (us : List (GameUnit F)) : Type 0 where
    pub other : ℕ
    pub apart : k ≢ other
    pub sheep : is_sheep k us ≡ true
    pub hit : (colliding f k other us ≡ true) ⊎ (colliding f other k us ≡ true)

  blamed-IsEndangered :
      (i j k : ℕ) (us : List (GameUnit F)) → blamed f i j k us ≡ true → IsEndangered k us
  blamed-IsEndangered i j k us e = elim (Bool-cases (i == k)) [
    | inl same ↦
        let one : i ≡ k = ground arith in
        record {
          other = j;
          apart = ground arith;
          sheep = ground arith;
          hit = inl (rw (← one) (ground arith));
        }
    | inr ne ↦
        let one : j ≡ k = ground arith in
        record {
          other = i;
          apart = ground arith;
          sheep = ground arith;
          hit = inr (rw (← one) (ground arith));
        }
  ]

  blamed_row-IsEndangered :
      (i n j k : ℕ) (us : List (GameUnit F)) → blamed_row f i n j k us ≡ true → IsEndangered k us
  unfolding blamed_row
  blamed_row-IsEndangered i zero j k us e = cc
  blamed_row-IsEndangered i (suc n) j k us e = elim (Bool-cases (blamed f i j k us)) [
    | inl b ↦ blamed-IsEndangered i j k us b
    | inr ne ↦ blamed_row-IsEndangered i n (j + 1) k us (rw ne at e)
  ]

  blamed_rows-IsEndangered :
      (m n i k : ℕ) (us : List (GameUnit F)) → blamed_rows f m n i k us ≡ true → IsEndangered k us
  unfolding blamed_rows
  blamed_rows-IsEndangered m zero i k us e = cc
  blamed_rows-IsEndangered m (suc n) i k us e = elim (Bool-cases (blamed_row f i m 0 k us)) [
    | inl b ↦ blamed_row-IsEndangered i m 0 k us b
    | inr ne ↦ blamed_rows-IsEndangered m n (i + 1) k us (rw ne at e)
  ]

  or-right : (a b : Bool) → b ≡ true → (a || b) ≡ true
  or-right a b e = ground arith

  blamed_row-hit :
      (i n j d k : ℕ) (us : List (GameUnit F))
      → d < n
      → blamed f i (j + d) k us ≡ true
      → blamed_row f i n j k us ≡ true
  unfolding blamed_row
  blamed_row-hit i zero j d k us h e = elim h [ ]
  blamed_row-hit i (suc n) j zero k us h e =
      let here : blamed f i j k us ≡ true =
        ap (λ h. blamed f i h k us) {x = j} {y = j + 0} (omega arith) ∙ e in
      rw here refl
  blamed_row-hit i (suc n) j (suc d) k us h e = or-right _ _ (
      blamed_row-hit i n (j + 1) d k us (omega arith)
        (ap (λ h. blamed f i h k us) {x = j + 1 + d} {y = j + suc d} (omega arith) ∙ e))

  blamed_rows-hit :
      (m n i d j k : ℕ) (us : List (GameUnit F))
      → d < n
      → j < m
      → blamed f (i + d) j k us ≡ true
      → blamed_rows f m n i k us ≡ true
  unfolding blamed_rows
  blamed_rows-hit m zero i d j k us h hj e = elim h [ ]
  blamed_rows-hit m (suc n) i zero j k us h hj e =
      let here : blamed_row f i m 0 k us ≡ true = blamed_row-hit i m 0 j k us hj (
        ap (λ h. blamed f h (0 + j) k us) {x = i} {y = i + 0} (omega arith)
        ∙ ap (λ h. blamed f (i + 0) h k us) {x = 0 + j} {y = j} (omega arith)
        ∙ e) in
      rw here refl
  blamed_rows-hit m (suc n) i (suc d) j k us h hj e = or-right _ _ (
      blamed_rows-hit m n (i + 1) d j k us (omega arith) hj
        (ap (λ h. blamed f h j k us) {x = i + 1 + d} {y = i + suc d} (omega arith) ∙ e))

  some-lt : {A : Type 0} (xs : List A) (i : ℕ) (x : A) → get_elem? xs i ≡ some x → i < length xs
  some-lt [] i x e = cc
  some-lt (y ∷ xs) zero x e = omega arith
  some-lt (y ∷ xs) (suc i) x e = omega (arith, some-lt xs i x e)

  colliding-lt :
      (i j : ℕ) (us : List (GameUnit F))
      → colliding f i j us ≡ true
      → (i < length us) × (j < length us)
  unfolding colliding
  colliding-lt i j us e = elim (Option-cases (get_elem? us i)) [
    | inl p ↦ absurd (ground arith)
    | inr (u, p) ↦ elim (Option-cases (get_elem? us j)) [
      | inl q ↦ absurd (ground arith)
      | inr (v, q) ↦ (some-lt us i u p, some-lt us j v q)
    ]
  ]

  blamed_all-hit :
      (i j k : ℕ) (us : List (GameUnit F))
      → colliding f i j us ≡ true
      → blamed f i j k us ≡ true
      → blamed_rows f (length us) (length us) 0 k us ≡ true
  blamed_all-hit i j k us c e =
      let (hi, hj) = colliding-lt i j us c in
      blamed_rows-hit (length us) (length us) 0 i j k us hi hj
        (ap (λ h. blamed f h j k us) {x = 0 + i} {y = i} (omega arith) ∙ e)

  IsEndangered-blamed :
      (k : ℕ) (us : List (GameUnit F))
      → (d : IsEndangered k us) → blamed_rows f (length us) (length us) 0 k us ≡ true
  IsEndangered-blamed k us d = elim d.hit [
    | inl c ↦ blamed_all-hit k d.other k us c (let a = d.apart in let s = d.sheep in ground arith)
    | inr c ↦ blamed_all-hit d.other k k us c (let a = d.apart in let s = d.sheep in ground arith)
  ]

  -- After the collision loop over all ordered pairs of units exactly those units live that lived
  -- before it and are not endangered: no sheep that collides with another unit survives, and
  -- nobody else dies.
  pub living-collide_all :
      (k : ℕ) (us : List (GameUnit F))
      → (living k (collide_all f us) ≡ true) ↔ ((living k us ≡ true) × ¬ IsEndangered k us)
  unfolding collide_all
  living-collide_all k us =
      let n = length us in
      let b = blamed_rows f n n 0 k us in
      let e : living k (collide_rows f n n 0 us) ≡ (living k us && not b) =
        living-collide_rows f n n 0 k us in
      (
        λ lives. (
          ground arith,
          λ d. let hit : b ≡ true = IsEndangered-blamed k us d in absurd (ground arith),
        ),
        λ h. elim (Bool-cases b) [
          | inl hit ↦ absurd (h.1 (blamed_rows-IsEndangered n n 0 k us hit))
          | inr miss ↦ let lived = h.0 in ground arith
        ],
      )
