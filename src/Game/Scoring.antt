-- ===== src/Game/Scoring.antt =====
-- The score that `Game::proceed` of uist-game/Game.cpp prints at the end.
use footscreen.Base.{ℕ, ◌+◌, ◌≡◌, Bool, not, ◌&&◌, List, [], ◌∷◌, length, keep, arith}
use footscreen.Floats.{Floats}
use footscreen.Units.{GameUnit}
use footscreen.Game.{Game, final_score, count_units, is_arrived_sheep, is_surviving_sheep}

abbrev pub is_living_sheep : {F : Type 0} → GameUnit F → Bool
is_living_sheep u = not u.is_hunting && u.is_living

module _ {F : Type 0} where
  pub count_units-keep :
      (p : GameUnit F → Bool) (n : ℕ) (us : List (GameUnit F))
      → count_units p n us ≡ n + length (keep p us)
  unfolding count_units
  count_units-keep p n [] = omega arith
  count_units-keep p n (u ∷ us) =
      ground (arith, count_units-keep p n us, count_units-keep p (n + 1) us)

  length-keep-add :
      (us : List (GameUnit F))
      → length (keep is_arrived_sheep us) + length (keep is_surviving_sheep us)
        ≡ length (keep is_living_sheep us)
  unfolding is_arrived_sheep is_surviving_sheep
  length-keep-add [] = omega arith
  length-keep-add (u ∷ us) = ground (arith, length-keep-add us)

-- The score counts every living sheep, and each that has arrived twice; the arrived and the
-- surviving ones printed are together the living sheep.
pub final_score-keep :
    {F D : Type 0} (f : Floats F D) (g : Game F D)
    → let s = final_score f g in
      (s.arrived_units + s.surviving_units ≡ length (keep is_living_sheep g.game_units))
      × (s.arrived_units ≡ length (keep is_arrived_sheep g.game_units))
      × (s.score ≡ s.arrived_units + length (keep is_living_sheep g.game_units))
unfolding final_score
final_score-keep f g =
    let arrived = count_units-keep is_arrived_sheep 0 g.game_units in
    let surviving = count_units-keep is_surviving_sheep 0 g.game_units in
    let both = length-keep-add g.game_units in (omega arith, omega arith, omega arith)
