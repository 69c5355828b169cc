-- ===== src/Game/Progress.antt =====
-- What `Game::proceed` of uist-game/Game.cpp keeps of the units.
use footscreen.Base.{
  ℕ, zero, suc, ◌+◌, Bool, true, false, not, ◌&&◌, ◌||◌, List, [], ◌∷◌, map, length, ◌==◌,
  if◌then◌else◌, arith,
}
use footscreen.Floats.{Floats}
use footscreen.Units.{
  GameUnit, GameObstacle, move, reflect_on_walls, separate_from, reflect_on, set_arrived,
  set_position, set_living, collides_with_obstacle,
}
use footscreen.Game.{
  Game, advance, advance_all, separate_all, killed, kill, collide, collide_row, collide_rows,
  collide_all, colliding, play, proceed,
}
use footscreen.Game.Successor.{
  IsSuccessor, Evolves, IsSuccessor-refl, IsSuccessor-trans, Evolves-refl, Evolves-trans,
  either-Evolves, moved-IsSuccessor, either-IsSuccessor,
}

either_units :
    {F D O : Type 0} (b : Bool) (us : List (GameUnit F)) (x y : Game F D × O)
    → Evolves us x.0.game_units
    → Evolves us y.0.game_units
    → Evolves us (if b then x else y).0.game_units
either_units true us x y s t = s
either_units false us x y s t = t

module _ {F D : Type 0} (f : Floats F D) where
  move-IsSuccessor : (time : F) (u : GameUnit F) → IsSuccessor u (move f time u)
  unfolding move
  move-IsSuccessor time u = ground arith

  reflect_on_walls-IsSuccessor : (u : GameUnit F) → IsSuccessor u (reflect_on_walls f u)
  unfolding reflect_on_walls
  reflect_on_walls-IsSuccessor u = moved-IsSuccessor _ _ _ u

  set_arrived-IsSuccessor : (u : GameUnit F) → IsSuccessor u (set_arrived true u)
  unfolding set_arrived
  set_arrived-IsSuccessor u = ground arith

  advance-IsSuccessor : (time : F) (u : GameUnit F) → IsSuccessor u (advance f time u)
  unfolding advance
  advance-IsSuccessor time u =
      let moved = reflect_on_walls f (move f time u) in
      let s =
        IsSuccessor-trans u (move f time u) moved (move-IsSuccessor time u)
          (reflect_on_walls-IsSuccessor (move f time u)) in
      either-IsSuccessor _ u _ _
        (IsSuccessor-trans u moved (set_arrived true moved) s (set_arrived-IsSuccessor moved)) s

  advance_all-Evolves :
      (time : F) (clock : ℕ → D) (i : ℕ) (last : D) (us : List (GameUnit F))
      → Evolves us (advance_all f time clock i last us).0
  unfolding advance_all
  advance_all-Evolves time clock i last [] = tt
  advance_all-Evolves time clock i last (u ∷ us) =
      (advance-IsSuccessor time u, advance_all-Evolves time clock (i + 1) _ us)

  reflect_on-IsSuccessor : (o : GameObstacle F) (u : GameUnit F) → IsSuccessor u (reflect_on f o u)
  unfolding reflect_on set_position
  reflect_on-IsSuccessor o u = moved-IsSuccessor u.x u.y _ u

  set_position-IsSuccessor : (x y : F) (u : GameUnit F) → IsSuccessor u (set_position x y u)
  unfolding set_position
  set_position-IsSuccessor x y u = moved-IsSuccessor x y u.velocity u

  separate_from-IsSuccessor :
      (o : GameObstacle F) (u : GameUnit F) → IsSuccessor u (separate_from f o u)
  unfolding separate_from
  separate_from-IsSuccessor o u =
      let s = reflect_on-IsSuccessor o u in
      either-IsSuccessor _ u (reflect_on f o u) _ s (
        IsSuccessor-trans u (reflect_on f o u) _ s
          (set_position-IsSuccessor _ _ (reflect_on f o u)))

  separate_all-IsSuccessor :
      (os : List (GameObstacle F)) (u : GameUnit F) → IsSuccessor u (separate_all f os u)
  unfolding separate_all
  separate_all-IsSuccessor [] u = IsSuccessor-refl u
  separate_all-IsSuccessor (o ∷ os) u =
      IsSuccessor-trans u _ _
        (either-IsSuccessor (not (collides_with_obstacle f u o)) u u (separate_from f o u)
          (IsSuccessor-refl u) (separate_from-IsSuccessor o u))
        (separate_all-IsSuccessor os _)

  map-Evolves :
      (os : List (GameObstacle F)) (us : List (GameUnit F))
      → Evolves us (map (separate_all f os) us)
  map-Evolves os [] = tt
  map-Evolves os (u ∷ us) = (separate_all-IsSuccessor os u, map-Evolves os us)

  killed-IsSuccessor : (u : GameUnit F) → IsSuccessor u (killed f u)
  unfolding killed set_living
  killed-IsSuccessor u = ground arith

  kill-Evolves : (i : ℕ) (us : List (GameUnit F)) → Evolves us (kill f i us)
  unfolding kill
  kill-Evolves i [] = tt
  kill-Evolves zero (u ∷ us) = (killed-IsSuccessor u, Evolves-refl us)
  kill-Evolves (suc i) (u ∷ us) = (IsSuccessor-refl u, kill-Evolves i us)

  collide-Evolves : (i j : ℕ) (us : List (GameUnit F)) → Evolves us (collide f i j us)
  unfolding collide
  collide-Evolves i j us =
      let both =
        Evolves-trans us (kill f i us) (kill f j (kill f i us)) (kill-Evolves i us)
          (kill-Evolves j (kill f i us)) in
      either-Evolves (i == j) us us _ (Evolves-refl us)
        (either-Evolves (not (colliding f i j us)) us us _ (Evolves-refl us) both)

  collide_row-Evolves : (i n j : ℕ) (us : List (GameUnit F)) → Evolves us (collide_row f i n j us)
  unfolding collide_row
  collide_row-Evolves i zero j us = Evolves-refl us
  collide_row-Evolves i (suc n) j us =
      Evolves-trans us (collide f i j us) _ (collide-Evolves i j us)
        (collide_row-Evolves i n (j + 1) (collide f i j us))

  collide_rows-Evolves : (m n i : ℕ) (us : List (GameUnit F)) → Evolves us (collide_rows f m n i us)
  unfolding collide_rows
  collide_rows-Evolves m zero i us = Evolves-refl us
  collide_rows-Evolves m (suc n) i us =
      Evolves-trans us (collide_row f i m 0 us) _ (collide_row-Evolves i m 0 us)
        (collide_rows-Evolves m n (i + 1) (collide_row f i m 0 us))

  play-Evolves :
      (time : F) (clock : ℕ → D) (g : Game F D)
      → Evolves g.game_units (play f time clock g).game_units
  unfolding play collide_all
  play-Evolves time clock g =
      let us = g.game_units in
      let moved = (advance_all f time clock 0 g.last_unit_time us).0 in
      let apart = map (separate_all f g.game_obstacles) moved in
      Evolves-trans us moved _ (advance_all-Evolves time clock 0 g.last_unit_time us) (
        Evolves-trans moved apart _ (map-Evolves g.game_obstacles moved)
          (collide_rows-Evolves (length apart) (length apart) 0 apart))

  -- However the timers stand, a call of `proceed` keeps the number and the order of the units, and
  -- each unit's message, number, owner, side and highlight; no unit comes back to life and no
  -- arrival is undone.
  pub proceed-Evolves :
      (time : F) (duration : D) (clock : ℕ → D) (g : Game F D)
      → Evolves g.game_units (proceed f time duration clock g).0.game_units
  unfolding proceed
  proceed-Evolves time duration clock g =
      let us = g.game_units in
      let same = Evolves-refl us in
      let played = play-Evolves time clock g in
      either_units (not g.has_started) us _ _ same (
        either_units (f.d_lt (f.d_lit 60) duration && not g.has_finished || g.has_finished) us _ _
          same played)
