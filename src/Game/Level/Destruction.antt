-- ===== src/Game/Level/Destruction.antt =====
-- The handlers that the objects of a level take back when they are destroyed: the destructor of
-- uist-game/Message.cpp.
use footscreen.Base.{
  ℕ, zero, suc, ◌+◌, ◌≤◌, ◌<◌, ◌≡◌, refl, sym, ap, ◌∙◌, Bool, ◌||◌, List, [], ◌∷◌, ◌++◌, map,
  length, leb, ltb, arith, keep, All,
}
use footscreen.MessageData.{message_id_first}
use footscreen.Handlers.{MessageHandler, remove_all_message_handlers}
use footscreen.Message.{Message, destroy}
use footscreen.Message.Identity.{own_handler}
use footscreen.Units.{GameUnit, GameObstacle}
use footscreen.Game.Level.{destroy_units, destroy_obstacles}
use footscreen.Game.Level.Registration.{count_up, IsNumbered, UnitsNumbered, ObstaclesNumbered}

module _ {C : Type 0} where
  -- A handler whose ID is none of some consecutive ones.
  abbrev pub outside : ℕ → ℕ → MessageHandler C → Bool
  outside a n h = ltb h.message_id a || leb (a + n) h.message_id

  remove-keep :
      (id : ℕ) (hs : List (MessageHandler C))
      → remove_all_message_handlers id hs ≡ keep (outside id 1) hs
  unfolding remove_all_message_handlers
  remove-keep id [] = refl
  remove-keep id (h ∷ hs) = ground (arith, remove-keep id hs)

  keep-outside :
      (a n k : ℕ) (hs : List (MessageHandler C))
      → keep (outside (a + n) k) (keep (outside a n) hs) ≡ keep (outside a (n + k)) hs
  keep-outside a n k [] = refl
  keep-outside a n k (h ∷ hs) = ground (arith, keep-outside a n k hs)

  keep-outside_none : (a : ℕ) (hs : List (MessageHandler C)) → keep (outside a 0) hs ≡ hs
  keep-outside_none a [] = refl
  keep-outside_none a (h ∷ hs) = ground (arith, keep-outside_none a hs)

  -- Objects with consecutive IDs take back the handlers of these.
  destroy-keep :
      {D : Type 0} (a : ℕ) (m : Message D) (hs : List (MessageHandler C))
      → message_id_first ≤ a
      → IsNumbered a m
      → destroy m hs ≡ keep (outside a 1) hs
  unfolding destroy
  destroy-keep a m hs low (attached, numbered) = ground (arith, remove-keep a hs)

  pub destroy_units-keep :
      {F : Type 0} (a : ℕ) (us : List (GameUnit F)) (hs : List (MessageHandler C))
      → message_id_first ≤ a
      → UnitsNumbered a us
      → destroy_units us hs ≡ keep (outside a (length us)) hs
  unfolding destroy_units
  destroy_units-keep a [] hs low numbered = sym (keep-outside_none a hs)
  destroy_units-keep a (u ∷ us) hs low (one, more) =
      destroy_units-keep (a + 1) us (destroy u.message hs) (omega arith) more
      ∙ ap (keep (outside (a + 1) (length us))) (destroy-keep a u.message hs low one)
      ∙ keep-outside a 1 (length us) hs
      ∙ ap (λ n. keep (outside a n) hs) {x = 1 + length us} {y = suc (length us)} (omega arith)

  pub destroy_obstacles-keep :
      {F : Type 0} (a : ℕ) (os : List (GameObstacle F)) (hs : List (MessageHandler C))
      → message_id_first ≤ a
      → ObstaclesNumbered a os
      → destroy_obstacles os hs ≡ keep (outside a (length os)) hs
  unfolding destroy_obstacles
  destroy_obstacles-keep a [] hs low numbered = sym (keep-outside_none a hs)
  destroy_obstacles-keep a (o ∷ os) hs low (one, more) =
      destroy_obstacles-keep (a + 1) os (destroy o.message hs) (omega arith) more
      ∙ ap (keep (outside (a + 1) (length os))) (destroy-keep a o.message hs low one)
      ∙ keep-outside a 1 (length os) hs
      ∙ ap (λ n. keep (outside a n) hs) {x = 1 + length os} {y = suc (length os)} (omega arith)

  keep-outside_before :
      (a n k : ℕ) (hs : List (MessageHandler C))
      → keep (outside a n) (keep (outside (a + n) k) hs) ≡ keep (outside a (n + k)) hs
  keep-outside_before a n k [] = refl
  keep-outside_before a n k (h ∷ hs) = ground (arith, keep-outside_before a n k hs)

  -- The objects of a level, the obstacles first.
  pub destroy_units-destroy_obstacles :
      {F : Type 0} (a : ℕ) (us : List (GameUnit F)) (os : List (GameObstacle F))
      (hs : List (MessageHandler C))
      → message_id_first ≤ a
      → UnitsNumbered a us
      → ObstaclesNumbered (a + length us) os
      → destroy_units us (destroy_obstacles os hs) ≡ keep (outside a (length us + length os)) hs
  destroy_units-destroy_obstacles a us os hs low units obstacles =
      destroy_units-keep a us (destroy_obstacles os hs) low units
      ∙ ap (keep (outside a (length us)))
          (destroy_obstacles-keep (a + length us) os hs (omega arith) obstacles)
      ∙ keep-outside_before a (length us) (length os) hs

  pub keep-outside_low :
      (a n : ℕ) (hs : List (MessageHandler C))
      → All (λ h. h.message_id < a) hs
      → keep (outside a n) hs ≡ hs
  keep-outside_low a n [] low = refl
  keep-outside_low a n (h ∷ hs) low = ground (arith, keep-outside_low a n hs low.1)

  pub keep-outside_append :
      (a n : ℕ) (hs ks : List (MessageHandler C))
      → keep (outside a n) (hs ++ ks) ≡ keep (outside a n) hs ++ keep (outside a n) ks
  keep-outside_append a n [] ks = refl
  keep-outside_append a n (h ∷ hs) ks = ground (arith, keep-outside_append a n hs ks)

  pub keep-outside_own :
      (update : ℕ → C) (a n b m : ℕ)
      → a ≤ b
      → b + m ≤ a + n
      → keep (outside a n) (map (λ id. own_handler (update id) id) (count_up b m)) ≡ []
  keep-outside_own update a n b zero below above = refl
  keep-outside_own update a n b (suc m) below above =
      ground (arith, keep-outside_own update a n (b + 1) m)
