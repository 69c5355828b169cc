-- ===== src/Game/Lookup.antt =====
-- `unitByIndex` of uist-game/Game.cpp against the list of a player's units.
use footscreen.Base.{
  ℕ, zero, suc, ◌+◌, ◌%◌, ◌<◌, ◌≡◌, refl, ap, ◌∙◌, not, none, List, [], ◌∷◌, get_elem?, keep, ◌==◌,
  arith, if◌then◌else◌, ◌&&◌,
}
use footscreen.MessageData.{id_none}
use footscreen.Units.{GameUnit}
use footscreen.Game.{Game, find_index, unit_by_index}

-- The units of a player, in order.
abbrev pub units_of : {F : Type 0} → ℕ → List (GameUnit F) → List (GameUnit F)
units_of player = keep (λ u. u.owner == player)

module _ {F : Type 0} where
  find_index-get_elem? :
      (player d current : ℕ) (us : List (GameUnit F))
      → current + d < 256
      → find_index player (current + d) current us ≡ get_elem? (units_of player us) d
  unfolding find_index
  find_index-get_elem? player d current [] h = refl
  find_index-get_elem? player zero current (u ∷ us) h =
      ground (arith, find_index-get_elem? player zero current us)
  find_index-get_elem? player (suc d) current (u ∷ us) h =
      let next : find_index player (current + suc d) ((current + 1) % 256) us
          ≡ get_elem? (units_of player us) d =
        ap (λ i. find_index player i ((current + 1) % 256) us) {x = current + suc d}
          {y = current + 1 + d} (omega arith)
        ∙ ap (λ c. find_index player (current + 1 + d) c us) {x = (current + 1) % 256}
            {y = current + 1} (omega arith)
        ∙ find_index-get_elem? player d (current + 1) us (omega arith) in
      ground (arith, next, find_index-get_elem? player (suc d) current us)

module _ {F D : Type 0} where
  -- For an index of 8 bits `unitByIndex` gives the unit at that place among the player's own, if the
  -- asking side knows no ID of its own or asks for its own units; otherwise it gives none. The
  -- counter never wraps before it is met.
  pub unit_by_index-get_elem? :
      (player index : ℕ) (g : Game F D)
      → index < 256
      → unit_by_index player index g ≡ (
          if not (g.own_player_id == id_none) && not (g.own_player_id == player)
          then none
          else get_elem? (units_of player g.game_units) index)
  unfolding unit_by_index
  unit_by_index-get_elem? player index g h =
      let found : find_index player index 0 g.game_units
          ≡ get_elem? (units_of player g.game_units) index =
        ap (λ i. find_index player i 0 g.game_units) {x = index} {y = 0 + index} (omega arith)
        ∙ find_index-get_elem? player index 0 g.game_units (omega arith) in
      rw found refl
