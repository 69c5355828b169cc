-- ===== src/Game/Sending.antt =====
-- `synchronize` of uist-game/Game.cpp: all units and then all obstacles are sent.
use footscreen.Base.{
  ℕ, ◌≡◌, refl, sym, ap, ◌∙◌, Bool, true, false, Option, some, List, [], ◌∷◌, ◌++◌, map, length,
  ltb, ◌>>=◌, arith, All, append-nil, map-append, append_assoc,
}
use footscreen.MessageData.{MessageHeader, MessageData, max_message_length}
use footscreen.Actions.{Level}
use footscreen.Message.{
  Message, RegisteredMessageType, synchronize, send_types, update_frequency_once,
}
use footscreen.Message.Types.{IsRegistered}
use footscreen.Message.Transfer.{package_of-payload}
use footscreen.Units.{GameUnit, GameObstacle}
use footscreen.Game.{Game}

-- `reachable` says that the pointer to the interface, or to the session, is not null.
module _ {N : Type 0} (send : MessageData → N → Option N) (report : Level → N → N)
    (garbage : MessageHeader) (bytes : List ℕ) (reachable : Bool) where
  unfoldable pub synchronize_units : {F : Type 0} → List (GameUnit F) → N → Option N
  unfolding synchronize
  synchronize_units [] n = some n
  synchronize_units (u ∷ us) n =
      synchronize send report garbage bytes reachable update_frequency_once u.message
        u.game_unit_data n
      >>= synchronize_units us

  unfoldable pub synchronize_obstacles : {F : Type 0} → List (GameObstacle F) → N → Option N
  unfolding synchronize
  synchronize_obstacles [] n = some n
  synchronize_obstacles (o ∷ os) n =
      synchronize send report garbage bytes reachable update_frequency_once o.message
        o.game_obstacle_data n
      >>= synchronize_obstacles os

  unfoldable pub synchronize_game : {F D : Type 0} → Game F D → N → Option N
  unfolding synchronize_units synchronize_obstacles
  synchronize_game g n = synchronize_units g.game_units n >>= synchronize_obstacles g.game_obstacles

-- An object with one registered type, which is sent.
pub record IsSendable {D : Type 0} (m : Message D) : Type 0 where
  pub type : RegisteredMessageType D
  pub only : m.registered_message_types ≡ type ∷ []
  pub enabled : type.is_sending_enabled ≡ true
  pub registered : IsRegistered m.message_id type

-- A network that takes every package.
abbrev pub append : MessageData → List MessageData → Option (List MessageData)
append m n = some (n ++ m ∷ [])

abbrev pub id_of : MessageData → ℕ
id_of m = m.header.message_id

module _ (report : Level → List MessageData → List MessageData) (garbage : MessageHeader)
    (bytes : List ℕ) (size : length bytes ≡ max_message_length) where
  synchronize-one :
      {D : Type 0} (m : Message D) (d : D) (n : List MessageData)
      → IsSendable m
      → (p : MessageData) × (synchronize append report garbage bytes true update_frequency_once m d
            n
          ≡ some (n ++ p ∷ []))
        × (id_of p ≡ m.message_id)
  unfolding synchronize send_types
  synchronize-one m d n v =
      let t = v.type in
      let (p, e, h, body, formed) =
        package_of-payload garbage bytes m.message_id t d size v.registered in
      let low : ltb t.update_frequency 0 ≡ false = ground arith in
      (
        p,
        rw v.only (rw low (rw v.enabled (rw e refl))),
        ap (λ (x : MessageHeader). x.message_id) h ∙ v.registered.message_id_eq,
      )

  -- The two lists, with what was sent before.
  synchronize_units-ids :
      {F : Type 0} (us : List (GameUnit F)) (n : List MessageData)
      → All (λ u. IsSendable u.message) us
      → (ps : List MessageData) × (synchronize_units append report garbage bytes true us n
          ≡ some (n ++ ps))
        × (map id_of ps ≡ map (λ u. u.message.message_id) us)
  unfolding synchronize_units
  synchronize_units-ids [] n v = ([], ap some (sym (append-nil n)), refl)
  synchronize_units-ids (u ∷ us) n v =
      let (p, e, same) = synchronize-one u.message u.game_unit_data n v.0 in
      let (ps, e', rest) = synchronize_units-ids us (n ++ p ∷ []) v.1 in
      (p ∷ ps, rw e (e' ∙ ap some (append_assoc n (p ∷ []) ps)), λ i. same i ∷ rest i)

  synchronize_obstacles-ids :
      {F : Type 0} (os : List (GameObstacle F)) (n : List MessageData)
      → All (λ o. IsSendable o.message) os
      → (ps : List MessageData) × (synchronize_obstacles append report garbage bytes true os n
          ≡ some (n ++ ps))
        × (map id_of ps ≡ map (λ o. o.message.message_id) os)
  unfolding synchronize_obstacles
  synchronize_obstacles-ids [] n v = ([], ap some (sym (append-nil n)), refl)
  synchronize_obstacles-ids (o ∷ os) n v =
      let (p, e, same) = synchronize-one o.message o.game_obstacle_data n v.0 in
      let (ps, e', rest) = synchronize_obstacles-ids os (n ++ p ∷ []) v.1 in
      (p ∷ ps, rw e (e' ∙ ap some (append_assoc n (p ∷ []) ps)), λ i. same i ∷ rest i)

  -- Over a network that takes every package, a game whose objects each have one enabled type sends
  -- one package for each object, under its ID: first the units and then the obstacles, in order.
  pub synchronize_game-ids :
      {F D : Type 0} (g : Game F D) (n : List MessageData)
      → All (λ u. IsSendable u.message) g.game_units
      → All (λ o. IsSendable o.message) g.game_obstacles
      → (ps : List MessageData) × (synchronize_game append report garbage bytes true g n
          ≡ some (n ++ ps))
        × (map id_of ps
            ≡ map (λ u. u.message.message_id) g.game_units
              ++ map (λ o. o.message.message_id) g.game_obstacles)
  unfolding synchronize_game
  synchronize_game-ids g n v w =
      let (ps, e, same) = synchronize_units-ids g.game_units n v in
      let (qs, e', same') = synchronize_obstacles-ids g.game_obstacles (n ++ ps) w in
      (
        ps ++ qs,
        rw e (e' ∙ ap some (append_assoc n ps qs)),
        map-append id_of ps qs ∙ (λ i. same i ++ same' i),
      )
