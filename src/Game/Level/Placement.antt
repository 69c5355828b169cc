-- ===== src/Game/Level/Placement.antt =====
-- What stands on the field after `Game::load` of uist-game/Game.cpp.
use footscreen.Base.{
  ℕ, ◌+◌, ◌%◌, ◌≡◌, refl, ap, ◌∙◌, Bool, true, false, some, List, [], ◌∷◌, ◌++◌, map, length, ◌==◌,
  if◌then◌else◌, arith, Bool-cases, inl, inr, append-nil,
}
use footscreen.Base.Int.{pos}
use footscreen.Floats.{Floats}
use footscreen.MessageData.{id_first_client}
use footscreen.Units.{
  GameUnit, GameObstacle, new_game_unit, new_game_obstacle, set_position, set_number, set_owner,
  set_hunting, set_obstacle_position, set_radius,
}
use footscreen.Game.{Game, reset}
use footscreen.Game.Lookup.{units_of}
use footscreen.Game.Level.{
  layout_of, Registry, Memory, load_unit, load_units, load_obstacle, load_obstacles, load,
  destroy_units, destroy_obstacles,
}

pub layout_of-length :
    (level : ℕ)
    → length (layout_of level).obstacle_positions ≡ length (layout_of level).obstacle_radii
unfolding layout_of
layout_of-length level = elim (Bool-cases (level == 2)) [
  | inl two ↦ rw two refl
  | inr _ ↦ elim (Bool-cases (level == 3)) [ inl three ↦ ground arith | inr _ ↦ ground arith ]
]

module _ {F : Type 0} where
  -- What a player sees of a unit: its number, position, side, life and arrival.
  abbrev pub place : GameUnit F → ℕ × F × F × Bool × Bool × Bool
  place u = (u.number, u.x, u.y, u.is_hunting, u.is_living, u.has_arrived)

  abbrev pub site : GameObstacle F → F × F × F
  site o = (o.x, o.y, o.radius)

  units_of-append :
      (p : ℕ) (us vs : List (GameUnit F)) → units_of p (us ++ vs) ≡ units_of p us ++ units_of p vs
  units_of-append p [] vs = refl
  units_of-append p (u ∷ us) vs = ground (arith, units_of-append p us vs)

module _ {F D : Type 0} (f : Floats F D) where
  -- Fresh units at some positions, numbered from a number on.
  abbrev pub placed : ℕ → Bool → List (ℕ × ℕ) → List (ℕ × F × F × Bool × Bool × Bool)
  placed n hunting [] = []
  placed n hunting ((x, y) ∷ ps) =
      (n, f.of_int (pos x), f.of_int (pos y), hunting, true, false)
      ∷ placed ((n + 1) % 256) hunting ps

  abbrev pub sites : List (ℕ × ℕ) → List ℕ → List (F × F × F)
  sites ((x, y) ∷ ps) (radius ∷ radii) =
      (f.of_int (pos x), f.of_int (pos y), f.of_int (pos radius)) ∷ sites ps radii
  sites _ _ = []

module _ {F D C : Type 0} (f : Floats F D) (memory : Memory F C) where
  load_units-placed :
      (n owner : ℕ) (hunting : Bool) (ps : List (ℕ × ℕ)) (r : Registry C)
      → map place (load_units f memory n owner hunting ps r).0 ≡ placed f n hunting ps
  unfolding load_units load_unit new_game_unit set_position set_number set_owner set_hunting
  load_units-placed n owner hunting [] r = refl
  load_units-placed n owner hunting ((x, y) ∷ ps) r =
      let next = (load_unit f memory n owner hunting (x, y) r).1 in
      ap (◌∷◌ (n, f.of_int (pos x), f.of_int (pos y), hunting, true, false))
        (load_units-placed ((n + 1) % 256) owner hunting ps next)

  load_units-owner :
      (n owner p : ℕ) (hunting : Bool) (ps : List (ℕ × ℕ)) (r : Registry C)
      → units_of p (load_units f memory n owner hunting ps r).0
        ≡ (if owner == p then (load_units f memory n owner hunting ps r).0 else [])
  unfolding load_units load_unit new_game_unit set_position set_number set_owner set_hunting
  load_units-owner n owner p hunting [] r = ground arith
  load_units-owner n owner p hunting ((x, y) ∷ ps) r =
      let next = (load_unit f memory n owner hunting (x, y) r).1 in
      ground (arith, load_units-owner ((n + 1) % 256) owner p hunting ps next)

  load_obstacles-sites :
      (ps : List (ℕ × ℕ)) (radii : List ℕ) (r : Registry C)
      → length ps ≡ length radii
      → (os : List (GameObstacle F)) × (end : Registry C) × (load_obstacles f memory ps radii r
          ≡ some (os, end))
        × (map site os ≡ sites f ps radii)
  unfolding load_obstacles load_obstacle new_game_obstacle set_obstacle_position set_radius
  load_obstacles-sites [] [] r same = ([], r, refl, refl)
  load_obstacles-sites [] (radius ∷ radii) r same = absurd (omega (arith, same))
  load_obstacles-sites (p ∷ ps) [] r same = absurd (omega (arith, same))
  load_obstacles-sites ((x, y) ∷ ps) (radius ∷ radii) r same =
      let (o, next) = load_obstacle f memory (x, y) radius r in
      let (os, end, e, s) = load_obstacles-sites ps radii next (omega (arith, same)) in
      (
        o ∷ os,
        end,
        rw e refl,
        ap (◌∷◌ (f.of_int (pos x), f.of_int (pos y), f.of_int (pos radius))) s,
      )

  pub load-placed :
      (level : ℕ) (g : Game F D) (r : Registry C)
      → let layout = layout_of level in
        (h : Game F D) × (end : Registry C) × (load f memory level g r ≡ some (h, end))
        × (map place (units_of id_first_client h.game_units)
            ≡ placed f 1 false layout.unit_positions_player_1)
        × (map place (units_of (id_first_client + 1) h.game_units)
            ≡ placed f 1 true layout.unit_positions_player_2)
        × (map site h.game_obstacles ≡ sites f layout.obstacle_positions layout.obstacle_radii)
        × (h.has_started ≡ g.has_started)
        × (h.has_finished ≡ g.has_finished)
        × (h.last_unit_time ≡ g.last_unit_time)
        × (h.own_player_id ≡ g.own_player_id)
  unfolding load reset
  load-placed level g r =
      let layout = layout_of level in
      let cleared = record r {
        message_handlers =
            destroy_obstacles g.game_obstacles (destroy_units g.game_units r.message_handlers);
      } in
      let first = layout.unit_positions_player_1 in
      let second = layout.unit_positions_player_2 in
      let (sheep, r₁) = load_units f memory 1 4 false first cleared in
      let (wolves, r₂) = load_units f memory 1 5 true second r₁ in
      let (os, end, e, s) =
        load_obstacles-sites layout.obstacle_positions layout.obstacle_radii r₂
          (layout_of-length level) in
      (
        record g { game_units = sheep ++ wolves; game_obstacles = os },
        end,
        rw e refl,
        ap (map place) (
              units_of-append 4 sheep wolves
              ∙ (λ i.
                  load_units-owner 1 4 4 false first cleared i
                  ++ load_units-owner 1 5 4 true second r₁ i)
              ∙ append-nil sheep)
            ∙ load_units-placed 1 4 false first cleared,
        ap (map place) (
              units_of-append 5 sheep wolves ∙ (λ i.
                load_units-owner 1 4 5 false first cleared i
                ++ load_units-owner 1 5 5 true second r₁ i))
            ∙ load_units-placed 1 5 true second r₁,
        s,
        refl,
        refl,
        refl,
        refl,
      )
