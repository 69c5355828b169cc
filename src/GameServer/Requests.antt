-- ===== src/GameServer/Requests.antt =====
-- What a request changes: one unit of the player who sent it.
use mathlib.Core.Option.{some-injective}
use footscreen.Base.{
  keep, Bool-cases, inl, inr, ℕ, zero, suc, ◌+◌, ◌%◌, ◌<◌, ◌≡◌, ◌≢◌, refl, ap, sym, ◌∙◌, Bool, true,
  false, Option, none, some, List, [], ◌∷◌, get_elem?, set, ◌==◌, if◌then◌else◌, arith,
}
use footscreen.Floats.{Floats}
use footscreen.MessageData.{MessageData, payload}
use footscreen.Handlers.{message_move_request, message_highlight_request}
use footscreen.Message.{Region}
use footscreen.Units.{GameUnit, set_highlighted}
use footscreen.Game.{Game, unit_by_index}
use footscreen.Game.Lookup.{units_of, unit_by_index-get_elem?}
use footscreen.Server.{GameNetworkServer, PlayerProfile, player_profile_by_session}
use footscreen.Requests.{MoveData, HighlightData, new_move_request, new_highlight_request}
use footscreen.Requests.Reading.{read_request-payload}
use footscreen.Message.Creation.{IsFor}
use footscreen.GameServer.{
  GameServer, change_index, change_unit, accelerate, handle_move_request, handle_highlight_request,
}

module _ {A : Type 0} (p : A → Bool) (x : A) (xs : List A) where
  keep-hit : p x ≡ true → keep p (x ∷ xs) ≡ x ∷ keep p xs
  keep-hit hit = ground arith

  keep-miss : p x ≡ false → keep p (x ∷ xs) ≡ keep p xs
  keep-miss miss = ground arith

if-some :
    {A : Type 0} (b : Bool) (o : Option A) {a : A} → (if b then none else o) ≡ some a → o ≡ some a
if-some true o e = absurd (cc)
if-some false o e = e

found_at :
    {F D : Type 0} (player index : ℕ) (g : Game F D) (u : GameUnit F)
    → index < 256
    → unit_by_index player index g ≡ some u
    → get_elem? (units_of player g.game_units) index ≡ some u
found_at player index g u small found =
    if-some _ _ (sym (unit_by_index-get_elem? player index g small) ∙ found)

module _ {F : Type 0} (change : GameUnit F → GameUnit F)
    (keeps : (u : GameUnit F) → (change u).owner ≡ u.owner) (player : ℕ) where
  units_of-change_index_other :
      (q index current : ℕ) (us : List (GameUnit F))
      → q ≢ player
      → units_of q (change_index change player index current us) ≡ units_of q us
  unfolding change_index
  units_of-change_index_other q index current [] other = refl
  units_of-change_index_other q index current (u ∷ us) other = ground (
    arith,
    keeps u,
    units_of-change_index_other q index current us other,
    units_of-change_index_other q index ((current + 1) % 256) us other,
  )

  units_of-change_index :
      (d current : ℕ) (us : List (GameUnit F)) (u : GameUnit F)
      → current + d < 256
      → get_elem? (units_of player us) d ≡ some u
      → units_of player (change_index change player (current + d) current us)
        ≡ set (units_of player us) d (change u)
  unfolding change_index
  units_of-change_index d current [] u h e = absurd (cc)
  units_of-change_index zero current (v ∷ us) u h e = elim (Bool-cases (v.owner == player)) [
    | inl own ↦
        let same : v ≡ u =
          some-injective _ _
            (ap (λ xs. get_elem? xs 0) (sym (keep-hit (λ x. x.owner == player) v us own)) ∙ e) in
        ground (arith, keeps v)
    | inr other ↦
        let later : get_elem? (units_of player us) 0 ≡ some u =
          ap (λ xs. get_elem? xs 0) (sym (keep-miss (λ x. x.owner == player) v us other)) ∙ e in
        ground (arith, units_of-change_index zero current us u h later)
  ]
  units_of-change_index (suc d) current (v ∷ us) u h e = elim (Bool-cases (v.owner == player)) [
    | inl own ↦
        let later : get_elem? (units_of player us) d ≡ some u =
          ap (λ xs. get_elem? xs (suc d)) (sym (keep-hit (λ x. x.owner == player) v us own)) ∙ e in
        let next : units_of player
              (change_index change player (current + suc d) ((current + 1) % 256) us)
            ≡ set (units_of player us) d (change u) =
          ap (λ i. units_of player (change_index change player i ((current + 1) % 256) us))
            {x = current + suc d} {y = current + 1 + d} (omega arith)
          ∙ ap (λ c. units_of player (change_index change player (current + 1 + d) c us))
              {x = (current + 1) % 256} {y = current + 1} (omega arith)
          ∙ units_of-change_index d (current + 1) us u (omega arith) later in
        ground (arith, next)
    | inr other ↦
        let later : get_elem? (units_of player us) (suc d) ≡ some u =
          ap (λ xs. get_elem? xs (suc d)) (sym (keep-miss (λ x. x.owner == player) v us other))
          ∙ e in
        ground (arith, units_of-change_index (suc d) current us u h later)
  ]

change_unit-found :
    {F D C : Type 0} (change : GameUnit F → GameUnit F) (index : ℕ) (p : PlayerProfile)
    (s : GameServer F D C) (g : Game F D) (u : GameUnit F)
    → s.game ≡ some g
    → unit_by_index p.player_id index g ≡ some u
    → change_unit change index (some p) s ≡ (
      record s {
        game =
            some (record g { game_units = change_index change p.player_id index 0 g.game_units });
      },
      [],
    )
unfolding change_unit
change_unit-found change index p s g u running found = ground arith

-- A change that keeps the owner of a unit, asked for by a player of a running game for a unit of
-- theirs, changes this unit in place and no other: the player's other units, and the units of
-- anybody else, are as they were and in the same order, and nothing is logged.
pub change_unit-units_of :
    {F D C : Type 0} (change : GameUnit F → GameUnit F) (index : ℕ) (p : PlayerProfile)
    (s : GameServer F D C) (g : Game F D) (u : GameUnit F)
    → ((v : GameUnit F) → (change v).owner ≡ v.owner)
    → index < 256
    → s.game ≡ some g
    → unit_by_index p.player_id index g ≡ some u
    → (h : Game F D) × (change_unit change index (some p) s ≡ (record s { game = some h }, []))
      × (units_of p.player_id h.game_units
          ≡ set (units_of p.player_id g.game_units) index (change u))
      × ((q : ℕ) → q ≢ p.player_id → units_of q h.game_units ≡ units_of q g.game_units)
unfolding change_unit
change_unit-units_of change index p s g u keeps small running found =
    let us = g.game_units in
    let player = p.player_id in
    let at_index : get_elem? (units_of player us) index ≡ some u =
      found_at player index g u small found in
    (
      record g { game_units = change_index change player index 0 us },
      change_unit-found change index p s g u running found,
      ap (λ i. units_of player (change_index change player i 0 us)) {x = index} {y = 0 + index}
            (omega arith)
          ∙ units_of-change_index change keeps player index 0 us u (omega arith) at_index,
      λ q other. units_of-change_index_other change keeps player q index 0 us other,
    )

module _ {F D C : Type 0} (f : Floats F D) (self : C) (s : GameServer F D C)
    (net : GameNetworkServer C) (m : MessageData) where
  -- A move request that arrives at a running server is read back as it was sent, byte for byte, and
  -- comes to a change of the acceleration of the unit that it names, among those of the sender.
  pub handle_move_request-change_unit :
      (region : Region (MoveData F)) (garbage : MoveData F)
      → IsFor message_move_request region m
      → s.game_network_server ≡ some net
      → (d : MoveData F) × (region.read d ≡ payload m)
        × (handle_move_request f self region garbage m s
            ≡ some (
                change_unit
                  (accelerate f d)
                  d.unit_index
                  (player_profile_by_session m.network_server_session net.player_profiles)
                  s))
  unfolding handle_move_request new_move_request
  handle_move_request-change_unit region garbage v on =
      let (d, e, bytes) =
        read_request-payload self message_move_request region
          (record garbage { angle = f.lit 0; strength = f.lit 0 }) m v in
      (d, bytes, rw (e, on) refl)

module _ {F D C : Type 0} (self : C) (s : GameServer F D C) (net : GameNetworkServer C)
    (m : MessageData) where
  -- A highlight request that arrives at a running server is read back as it was sent, byte for byte,
  -- and comes to a change of the highlight of the unit that it names, among those of the sender.
  pub handle_highlight_request-change_unit :
      (region : Region HighlightData) (garbage : HighlightData)
      → IsFor message_highlight_request region m
      → s.game_network_server ≡ some net
      → (d : HighlightData) × (region.read d ≡ payload m)
        × (handle_highlight_request self region garbage m s
            ≡ some (
                change_unit
                  (set_highlighted d.is_highlighted)
                  d.unit_index
                  (player_profile_by_session m.network_server_session net.player_profiles)
                  s))
  unfolding handle_highlight_request new_highlight_request
  handle_highlight_request-change_unit region garbage v on =
      let (d, e, bytes) =
        read_request-payload self message_highlight_request region
          (record garbage { is_highlighted = true }) m v in
      (d, bytes, rw (e, on) refl)
