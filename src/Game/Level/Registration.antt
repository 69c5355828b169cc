-- ===== src/Game/Level/Registration.antt =====
-- The handlers that the objects of a level register, and their IDs: `Game::load` of uist-game/Game.cpp
-- with `generateMessageID` of uist-game/Message.cpp.
use mathlib.Core.Path.{subst}
use footscreen.Base.{
  ℕ, zero, suc, ◌+◌, ◌%◌, ◌≤◌, ◌<◌, ◌≡◌, refl, sym, ap, ◌∙◌, Bool, true, some, List, [], ◌∷◌, ◌++◌,
  map, length, arith, append-nil, append_assoc, le→leb,
}
use footscreen.Floats.{Floats}
use footscreen.MessageData.{message_id_first}
use footscreen.Handlers.{MessageHandler, add_message_handler}
use footscreen.Message.{
  Message, generate_message_id, register_message_type, set_message_id, new_message,
}
use footscreen.Message.Identity.{own_handler}
use footscreen.Units.{
  GameUnit, GameObstacle, new_game_unit, new_game_obstacle, set_position, set_number, set_owner,
  set_hunting, set_obstacle_position, set_radius,
}
use footscreen.Game.Level.{Registry, Memory, load_unit, load_units, load_obstacle, load_obstacles}

-- `n` numbers from `a` on.
abbrev pub count_up : ℕ → ℕ → List ℕ
count_up a zero = []
count_up a (suc n) = a ∷ count_up (a + 1) n

-- An object of an interface, with an ID.
abbrev pub IsNumbered : {D : Type 0} → ℕ → Message D → Type 0
IsNumbered id m = (m.is_attached ≡ true) × (m.message_id ≡ id)

module _ {F : Type 0} where
  abbrev pub UnitsNumbered : ℕ → List (GameUnit F) → Type 0
  UnitsNumbered a [] = Unit
  UnitsNumbered a (u ∷ us) = IsNumbered a u.message × UnitsNumbered (a + 1) us

  abbrev pub ObstaclesNumbered : ℕ → List (GameObstacle F) → Type 0
  ObstaclesNumbered a [] = Unit
  ObstaclesNumbered a (o ∷ os) = IsNumbered a o.message × ObstaclesNumbered (a + 1) os

module _ {F D C : Type 0} (f : Floats F D) (memory : Memory F C) where
  -- The handlers of the objects with some IDs.
  abbrev pub owned : List ℕ → List (MessageHandler C)
  owned ids = map (λ id. own_handler (memory.update_of id) id) ids

  load_unit-registers :
      (number owner : ℕ) (hunting : Bool) (p : ℕ × ℕ) (r : Registry C)
      → message_id_first ≤ r.next_message_id
      → r.next_message_id + 1 < 65536
      → let (u, end) = load_unit f memory number owner hunting p r in
        IsNumbered r.next_message_id u.message
        × (end.message_handlers
            ≡ r.message_handlers
              ++ own_handler (memory.update_of r.next_message_id) r.next_message_id ∷ [])
        × (end.next_message_id ≡ r.next_message_id + 1)
  unfolding load_unit new_game_unit register_message_type new_message generate_message_id
      set_message_id add_message_handler set_position set_number set_owner set_hunting
  load_unit-registers number owner hunting p r low high =
      ((refl, refl), rw (le→leb message_id_first r.next_message_id low) refl, omega (arith, high))

  pub load_units-registers :
      (number owner : ℕ) (hunting : Bool) (ps : List (ℕ × ℕ)) (r : Registry C)
      → message_id_first ≤ r.next_message_id
      → r.next_message_id + length ps < 65536
      → let (us, end) = load_units f memory number owner hunting ps r in
        UnitsNumbered r.next_message_id us
        × (length us ≡ length ps)
        × (end.message_handlers
            ≡ r.message_handlers ++ owned (count_up r.next_message_id (length ps)))
        × (end.next_message_id ≡ r.next_message_id + length ps)
  unfolding load_units
  load_units-registers number owner hunting [] r low high =
      (tt, refl, sym (append-nil r.message_handlers), omega arith)
  load_units-registers number owner hunting (p ∷ ps) r low high =
      let r' = (load_unit f memory number owner hunting p r).1 in
      let (numbered, one, next) =
        load_unit-registers number owner hunting p r low (omega (arith, high)) in
      let (more, size, rest, end) =
        load_units-registers ((number + 1) % 256) owner hunting ps r' (omega (arith, next, low))
          (omega (arith, next, high)) in
      (
        (
          numbered,
          subst
              (λ a.
                UnitsNumbered a (load_units f memory ((number + 1) % 256) owner hunting ps r').0)
              next more,
        ),
        ap suc size,
        rest
            ∙ (λ i. one i ++ owned (count_up (next i) (length ps)))
            ∙ append_assoc r.message_handlers
                (own_handler (memory.update_of r.next_message_id) r.next_message_id ∷ [])
                (owned (count_up (r.next_message_id + 1) (length ps))),
        omega (arith, end, next),
      )

  load_obstacle-registers :
      (p : ℕ × ℕ) (radius : ℕ) (r : Registry C)
      → message_id_first ≤ r.next_message_id
      → r.next_message_id + 1 < 65536
      → let (o, end) = load_obstacle f memory p radius r in
        IsNumbered r.next_message_id o.message
        × (end.message_handlers
            ≡ r.message_handlers
              ++ own_handler (memory.update_of r.next_message_id) r.next_message_id ∷ [])
        × (end.next_message_id ≡ r.next_message_id + 1)
  unfolding load_obstacle new_game_obstacle register_message_type new_message generate_message_id
      set_message_id add_message_handler set_obstacle_position set_radius
  load_obstacle-registers p radius r low high =
      ((refl, refl), rw (le→leb message_id_first r.next_message_id low) refl, omega (arith, high))

  pub load_obstacles-registers :
      (ps : List (ℕ × ℕ)) (radii : List ℕ) (r : Registry C)
      → length ps ≡ length radii
      → message_id_first ≤ r.next_message_id
      → r.next_message_id + length ps < 65536
      → (os : List (GameObstacle F)) × (end : Registry C) × (load_obstacles f memory ps radii r
          ≡ some (os, end))
        × ObstaclesNumbered r.next_message_id os
        × (length os ≡ length ps)
        × (end.message_handlers
            ≡ r.message_handlers ++ owned (count_up r.next_message_id (length ps)))
        × (end.next_message_id ≡ r.next_message_id + length ps)
  unfolding load_obstacles
  load_obstacles-registers [] [] r same low high =
      ([], r, refl, tt, refl, sym (append-nil r.message_handlers), omega arith)
  load_obstacles-registers [] (radius ∷ radii) r same low high = absurd (omega (arith, same))
  load_obstacles-registers (p ∷ ps) [] r same low high = absurd (omega (arith, same))
  load_obstacles-registers (p ∷ ps) (radius ∷ radii) r same low high =
      let (o, r') = load_obstacle f memory p radius r in
      let (numbered, one, next) = load_obstacle-registers p radius r low (omega (arith, high)) in
      let (os, last, e, more, size, rest, end) =
        load_obstacles-registers ps radii r' (omega (arith, same)) (omega (arith, next, low))
          (omega (arith, next, high)) in
      (
        o ∷ os,
        last,
        rw e refl,
        (numbered, subst (λ a. ObstaclesNumbered a os) next more),
        ap suc size,
        rest
            ∙ (λ i. one i ++ owned (count_up (next i) (length ps)))
            ∙ append_assoc r.message_handlers
                (own_handler (memory.update_of r.next_message_id) r.next_message_id ∷ [])
                (owned (count_up (r.next_message_id + 1) (length ps))),
        omega (arith, end, next),
      )
