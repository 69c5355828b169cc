-- ===== src/Game/Successor.antt =====
-- What a call of `Game::proceed` of uist-game/Game.cpp may change of a unit.
use footscreen.Base.{
  ◌≡◌, refl, ◌∙◌, Bool, true, false, not, ◌&&◌, List, [], ◌∷◌, if◌then◌else◌, arith,
}
use footscreen.Units.{GameUnit, Vector, set_position}

-- The same unit later on: its message, number, owner, side and highlight are kept, the dead stay
-- dead and the arrived stay arrived.
pub record IsSuccessor {F : Type 0} (u v : GameUnit F) : Type 0 where
  pub message_eq : v.message ≡ u.message
  pub number_eq : v.number ≡ u.number
  pub owner_eq : v.owner ≡ u.owner
  pub is_hunting_eq : v.is_hunting ≡ u.is_hunting
  pub is_highlighted_eq : v.is_highlighted ≡ u.is_highlighted
  pub living : (v.is_living && not u.is_living) ≡ false
  pub arrived : (u.has_arrived && not v.has_arrived) ≡ false

abbrev pub Evolves : {F : Type 0} → List (GameUnit F) → List (GameUnit F) → Type 0
Evolves [] [] = Unit {0}
Evolves (u ∷ us) (v ∷ vs) = IsSuccessor u v × Evolves us vs
Evolves _ _ = ⊥

and-not : (a : Bool) → (a && not a) ≡ false
and-not a = ground arith

and-not_trans : (a b c : Bool) → (a && not b) ≡ false → (b && not c) ≡ false → (a && not c) ≡ false
and-not_trans a b c h k = ground arith

module _ {F : Type 0} where
  pub IsSuccessor-refl : (u : GameUnit F) → IsSuccessor u u
  IsSuccessor-refl u = record {
    message_eq = refl;
    number_eq = refl;
    owner_eq = refl;
    is_hunting_eq = refl;
    is_highlighted_eq = refl;
    living = and-not u.is_living;
    arrived = and-not u.has_arrived;
  }

  pub IsSuccessor-trans : (u v w : GameUnit F) → IsSuccessor u v → IsSuccessor v w → IsSuccessor u w
  IsSuccessor-trans u v w s t = record {
    message_eq = t.message_eq ∙ s.message_eq;
    number_eq = t.number_eq ∙ s.number_eq;
    owner_eq = t.owner_eq ∙ s.owner_eq;
    is_hunting_eq = t.is_hunting_eq ∙ s.is_hunting_eq;
    is_highlighted_eq = t.is_highlighted_eq ∙ s.is_highlighted_eq;
    living = and-not_trans w.is_living v.is_living u.is_living t.living s.living;
    arrived = and-not_trans u.has_arrived v.has_arrived w.has_arrived s.arrived t.arrived;
  }

  pub Evolves-refl : (us : List (GameUnit F)) → Evolves us us
  Evolves-refl [] = tt
  Evolves-refl (u ∷ us) = (IsSuccessor-refl u, Evolves-refl us)

  pub Evolves-trans : (us vs ws : List (GameUnit F)) → Evolves us vs → Evolves vs ws → Evolves us ws
  Evolves-trans [] [] ws s t = t
  Evolves-trans [] (v ∷ vs) ws s t = absurd s
  Evolves-trans (u ∷ us) [] ws s t = absurd s
  Evolves-trans (u ∷ us) (v ∷ vs) [] s t = absurd t
  Evolves-trans (u ∷ us) (v ∷ vs) (w ∷ ws) s t =
      (IsSuccessor-trans u v w s.0 t.0, Evolves-trans us vs ws s.1 t.1)

  pub either-Evolves :
      (b : Bool) (us vs ws : List (GameUnit F))
      → Evolves us vs
      → Evolves us ws
      → Evolves us (if b then vs else ws)
  either-Evolves true us vs ws s t = s
  either-Evolves false us vs ws s t = t

  -- A change of position and velocity alone.
  pub moved-IsSuccessor :
      (x y : F) (v : Vector F) (u : GameUnit F)
      → IsSuccessor u (set_position x y (record u { velocity = v }))
  unfolding set_position
  moved-IsSuccessor x y v u = record {
    message_eq = refl;
    number_eq = refl;
    owner_eq = refl;
    is_hunting_eq = refl;
    is_highlighted_eq = refl;
    living = and-not u.is_living;
    arrived = and-not u.has_arrived;
  }

  pub either-IsSuccessor :
      (b : Bool) (u v w : GameUnit F)
      → IsSuccessor u v
      → IsSuccessor u w
      → IsSuccessor u (if b then v else w)
  either-IsSuccessor true u v w s t = s
  either-IsSuccessor false u v w s t = t
