-- ===== src/Game/Updates/Known.antt =====
-- What `updateData` changes of a game whose units have an ID each: uist-game/Game.cpp, Message.cpp.
use mathlib.Core.Option.{some-injective}
use footscreen.Base.{
  ℕ, ◌≡◌, refl, ap, ◌∙◌, none, some, List, [], ◌∷◌, ◌==◌, arith, Bool-cases, inl, inr,
}
use footscreen.MessageData.{MessageData}
use footscreen.Message.{update_data}
use footscreen.Units.{GameUnit, GameObstacle, GameUnitData}
use footscreen.Game.{unit_by_id, obstacle_by_id}
use footscreen.Game.Updates.{update_units, update_obstacles}

module _ {F : Type 0} (id : ℕ) (m : MessageData) where
  -- The first unit with an ID is the one that is updated, and it is found again.
  pub update_units-unit_by_id :
      (us : List (GameUnit F)) (u : GameUnit F) (d : GameUnitData F)
      → unit_by_id id us ≡ some u
      → update_data m u.message u.game_unit_data ≡ some d
      → (vs : List (GameUnit F)) × (update_units id m us ≡ some vs)
        × (unit_by_id id vs ≡ some (record u { game_unit_data = d }))
  unfolding update_units unit_by_id
  update_units-unit_by_id [] u d found done = absurd (cc)
  update_units-unit_by_id (v ∷ us) u d found done = elim (Bool-cases (v.message.message_id == id)) [
    | inl hit ↦
        let same : v ≡ u = some-injective _ _ (rw hit at found) in
        (
          record v { game_unit_data = d } ∷ us,
          rw hit (
              rw (ap (λ (w : GameUnit F). update_data m w.message w.game_unit_data) same ∙ done)
                refl),
          rw hit (ap (λ (w : GameUnit F). some (record w { game_unit_data = d })) same),
        )
    | inr miss ↦
        let (vs, e, known) = update_units-unit_by_id us u d (rw miss at found) done in
        (v ∷ vs, rw (miss, e) refl, rw miss known)
  ]

  pub update_obstacles-unknown :
      (os : List (GameObstacle F))
      → obstacle_by_id id os ≡ none
      → update_obstacles id m os ≡ some os
  unfolding update_obstacles obstacle_by_id
  update_obstacles-unknown [] unknown = refl
  update_obstacles-unknown (o ∷ os) unknown = elim (Bool-cases (o.message.message_id == id)) [
    | inl hit ↦ absurd (ground arith)
    | inr miss ↦ rw (miss, update_obstacles-unknown os (ground arith)) refl
  ]
