-- ===== src/GameServer.antt =====
-- uist-game/GameServer.h and GameServer.cpp: what the server of the game does for its clients. The
-- thread of `run` and the mutex are not modelled; `none` is a null pointer that is followed or memory
-- written out of bounds.
pub mod Requests
pub mod Callbacks
pub mod Receiving
pub mod RoundTrip
pub mod Welcome
pub mod Running
pub mod Loading
pub mod Overwriting
use footscreen.Base.{
  ℕ, zero, suc, ◌+◌, ◌%◌, ◌≡◌, Bool, true, false, not, Option, none, some, List, [], ◌∷◌, ◌==◌,
  if◌then◌else◌, ◌>>=◌,
}
use footscreen.Floats.{Floats}
use footscreen.MessageData.{MessageData}
use footscreen.Message.{Region}
use footscreen.Actions.{Level, error}
use footscreen.Units.{GameUnit, Vector, set_acceleration, set_highlighted, maximal_acceleration}
use footscreen.Game.{Game, unit_by_index, start}
use footscreen.Server.{GameNetworkServer, PlayerProfile, player_profile_by_session}
use footscreen.Requests.{
  MoveData, HighlightData, new_move_request, new_highlight_request, read_request,
}

-- `game_network_server` is null once the server has stopped.
pub record GameServer (F D C : Type 0) : Type 0 where
  pub game_network_server : Option (GameNetworkServer C)
  pub game : Option (Game F D)

module _ {F : Type 0} where
  -- A change of the object that the pointer from `unitByIndex` leads to, in the list.
  unfoldable pub change_index :
      (GameUnit F → GameUnit F) → ℕ → ℕ → ℕ → List (GameUnit F) → List (GameUnit F)
  change_index change player index current [] = []
  change_index change player index current (u ∷ us) =
      if not (u.owner == player)
      then u ∷ change_index change player index current us
      else if current == index
      then change u ∷ us
      else u ∷ change_index change player index ((current + 1) % 256) us

module _ {F D C : Type 0} where
  -- From the profile on: the two errors, or the change.
  unfoldable pub change_unit :
      (GameUnit F → GameUnit F)
      → ℕ
      → Option PlayerProfile
      → GameServer F D C
      → GameServer F D C × List Level
  unfolding change_index
  change_unit change index none s = (s, error ∷ [])
  change_unit change index (some p) s = elim s.game [
    | none ↦ (s, error ∷ [])
    | some g ↦ elim (unit_by_index p.player_id index g) [
      | none ↦ (s, error ∷ [])
      | some u ↦ (
        record s {
          game =
              some (record g { game_units = change_index change p.player_id index 0 g.game_units });
        },
        [],
      )
    ]
  ]

  unfoldable pub start_game : GameServer F D C → GameServer F D C
  unfolding start
  start_game s = elim s.game [ none ↦ s | some g ↦ record s { game = some (start g) } ]

module _ {F D C : Type 0} (self : C) where
  unfoldable pub handle_highlight_request :
      Region HighlightData
      → HighlightData
      → MessageData
      → GameServer F D C
      → Option (GameServer F D C × List Level)
  unfolding read_request new_highlight_request set_highlighted change_unit
  handle_highlight_request region garbage incoming s =
      read_request self incoming (new_highlight_request self false region garbage []) >>= λ d.
      s.game_network_server >>= λ net. some (
        change_unit (set_highlighted d.is_highlighted) d.unit_index
          (player_profile_by_session incoming.network_server_session net.player_profiles) s)

module _ {F D : Type 0} (f : Floats F D) where
  open f use {lit, mul, neg, cos, sin, lt}

  -- `std::min(1, std::max(0, s))`.
  abbrev pub clamped : F → F
  clamped s = let m = if lt (lit 0) s then s else lit 0 in if lt m (lit 1) then m else lit 1

  unfoldable pub accelerate : MoveData F → GameUnit F → GameUnit F
  unfolding set_acceleration
  accelerate d u =
      let strength = mul (clamped d.strength) (maximal_acceleration f) in
      set_acceleration
        (record { first = mul (cos d.angle) strength; second = mul (neg (sin d.angle)) strength }) u

module _ {F D C : Type 0} (f : Floats F D) (self : C) where
  unfoldable pub handle_move_request :
      Region (MoveData F)
      → MoveData F
      → MessageData
      → GameServer F D C
      → Option (GameServer F D C × List Level)
  unfolding read_request new_move_request accelerate change_unit
  handle_move_request region garbage incoming s =
      read_request self incoming (new_move_request self false f region garbage []) >>= λ d.
      s.game_network_server >>= λ net. some (
        change_unit (accelerate f d) d.unit_index
          (player_profile_by_session incoming.network_server_session net.player_profiles) s)
