-- ===== src/Touch/Largest.antt =====
-- The touch that `detectTouch` of Application.cpp finds is the largest ellipse.
use mathlib.Core.Path.{subst}
use footscreen.Base.{
  ◌≡◌, refl, ap, Bool, true, false, List, [], ◌∷◌, length, ltb, Bool-cases, inl, inr, All, keep,
  map, not, ◌⊎◌, arith, sym,
}
use footscreen.Floats.{Floats}
use footscreen.Touch.{Point, Vision, consider, consider_all, min_contour_points}

-- The contours that are large enough to fit an ellipse, and the size and the center of theirs.
abbrev pub is_large : {C : Type 0} → List C → Bool
is_large c = not (ltb (length c) min_contour_points)

drop_small :
    {C : Type 0} (c : List C) (cs : List (List C))
    → ltb (length c) min_contour_points ≡ true
    → keep is_large (c ∷ cs) ≡ keep is_large cs
drop_small c cs small = ground arith

keep_large :
    {C : Type 0} (c : List C) (cs : List (List C))
    → ltb (length c) min_contour_points ≡ false
    → keep is_large (c ∷ cs) ≡ c ∷ keep is_large cs
keep_large c cs large = ground arith

module _ {I C F D : Type 0} (f : Floats F D) (v : Vision I C F D) where
  abbrev pub ellipse_of : List C → D × Point F
  ellipse_of c = let e = v.fit_ellipse c in (f.widen (f.mul e.width e.height), e.center)

  abbrev pub ellipses : List (List C) → List (D × Point F)
  ellipses cs = map ellipse_of (keep is_large cs)

  -- A candidate among others, all of which are at most as large.
  abbrev pub IsMaximal : D × Point F → List (D × Point F) → Type 0
  IsMaximal best es = All (λ e. f.d_lt best.0 e.0 ≡ false) es

  abbrev pub IsIn : D × Point F → List (D × Point F) → Type 0
  IsIn b [] = ⊥
  IsIn b (e ∷ es) = (b ≡ e) ⊎ IsIn b es

  consider_small :
      (c : List C) (best : D × Point F)
      → ltb (length c) min_contour_points ≡ true
      → consider f v c best ≡ best
  unfolding consider
  consider_small c best small = ground arith

  consider_more :
      (c : List C) (best : D × Point F)
      → ltb (length c) min_contour_points ≡ false
      → f.d_lt best.0 (ellipse_of c).0 ≡ true
      → consider f v c best ≡ ellipse_of c
  unfolding consider
  consider_more c best large more = rw (large, more) refl

  consider_less :
      (c : List C) (best : D × Point F)
      → ltb (length c) min_contour_points ≡ false
      → f.d_lt best.0 (ellipse_of c).0 ≡ false
      → consider f v c best ≡ best
  unfolding consider
  consider_less c best large less = rw (large, less) refl

  module _ (trans : (a b c : D) → f.d_lt a b ≡ true → f.d_lt b c ≡ true → f.d_lt a c ≡ true)
      (irrefl : (a : D) → f.d_lt a a ≡ false) where
    -- What is not larger than the first is not larger than the last.
    no_smaller : (a b c : D) → f.d_lt a b ≡ true → f.d_lt a c ≡ false → f.d_lt b c ≡ false
    no_smaller a b c less not_less = elim (Bool-cases (f.d_lt b c)) [
      | inl more ↦ absurd (cc (trans a b c less more))
      | inr le ↦ le
    ]

    no_larger : (a b c : D) → f.d_lt b c ≡ true → f.d_lt a c ≡ false → f.d_lt a b ≡ false
    no_larger a b c less not_less = elim (Bool-cases (f.d_lt a b)) [
      | inl more ↦ absurd (cc (trans a b c more less))
      | inr le ↦ le
    ]

    grows :
        (cs : List (List C)) (best : D × Point F) (a : D)
        → f.d_lt best.0 a ≡ false
        → f.d_lt (consider_all f v cs best).0 a ≡ false
    unfolding consider_all
    grows [] best a h = h
    grows (c ∷ cs) best a h =
        grows cs (consider f v c best) a (elim (Bool-cases (ltb (length c) min_contour_points)) [
          | inl small ↦ rw (consider_small c best small) h
          | inr large ↦ elim (Bool-cases (f.d_lt best.0 (ellipse_of c).0)) [
            | inl more ↦
                rw (consider_more c best large more) (no_smaller best.0 (ellipse_of c).0 a more h)
            | inr less ↦ rw (consider_less c best large less) h
          ]
        ])

    -- A turn of the loop, with what it comes to.
    turn :
        (c : List C) (cs : List (List C)) (best best' : D × Point F) (es : List (D × Point F))
        → consider f v c best ≡ best'
        → ellipses (c ∷ cs) ≡ es
        → IsIn (consider_all f v cs best') (best ∷ es)
          × IsMaximal (consider_all f v cs best') (best ∷ es)
        → IsIn (consider_all f v (c ∷ cs) best) (best ∷ ellipses (c ∷ cs))
          × IsMaximal (consider_all f v (c ∷ cs) best) (best ∷ ellipses (c ∷ cs))
    unfolding consider_all
    turn c cs best best' es e e' h =
        subst
          (λ b.
            IsIn (consider_all f v cs b) (best ∷ ellipses (c ∷ cs))
            × IsMaximal (consider_all f v cs b) (best ∷ ellipses (c ∷ cs)))
          (sym e)
          (subst
            (λ xs.
              IsIn (consider_all f v cs best') (best ∷ xs)
              × IsMaximal (consider_all f v cs best') (best ∷ xs))
            (sym e') h)

    -- Whatever contours the camera shows: the ellipse that the loop ends with is the one it started
    -- with or one of those fitted to the contours of at least ten points, and none of these, nor the
    -- first, is larger; where the order of the sizes is transitive and irreflexive.
    pub consider_all-IsMaximal :
        (cs : List (List C)) (best : D × Point F)
        → IsIn (consider_all f v cs best) (best ∷ ellipses cs)
          × IsMaximal (consider_all f v cs best) (best ∷ ellipses cs)
    unfolding consider_all
    consider_all-IsMaximal [] best = (inl refl, (irrefl best.0, tt))
    consider_all-IsMaximal (c ∷ cs) best = elim (Bool-cases (ltb (length c) min_contour_points)) [
      | inl small ↦
          turn c cs best best (ellipses cs) (consider_small c best small)
            (ap (map ellipse_of) (drop_small c cs small)) (consider_all-IsMaximal cs best)
      | inr large ↦ elim (Bool-cases (f.d_lt best.0 (ellipse_of c).0)) [
        | inl more ↦
            let (found, maximal) = consider_all-IsMaximal cs (ellipse_of c) in
            turn c cs best (ellipse_of c) (ellipse_of c ∷ ellipses cs)
              (consider_more c best large more) (ap (map ellipse_of) (keep_large c cs large))
              (
                inr found,
                (
                  no_larger (consider_all f v cs (ellipse_of c)).0 best.0 (ellipse_of c).0 more
                      maximal.0,
                  maximal,
                ),
              )
        | inr less ↦
            let (found, maximal) = consider_all-IsMaximal cs best in
            turn c cs best best (ellipse_of c ∷ ellipses cs) (consider_less c best large less)
              (ap (map ellipse_of) (keep_large c cs large))
              (
                elim found [ inl first ↦ inl first | inr later ↦ inr (inr later) ],
                (maximal.0, (grows cs best (ellipse_of c).0 less, maximal.1)),
              )
      ]
    ]
