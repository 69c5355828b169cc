-- ===== src/GameServer/Loading/Reloading.antt =====
-- The handlers of the server's network after another level is loaded in the place of one: `loadGame` of
-- uist-game/GameServer.cpp.
use mathlib.Core.Path.{subst}
use footscreen.Base.{
  ℕ, ◌+◌, ◌≤◌, ◌<◌, ◌≡◌, refl, ap, ◌∙◌, some, none, List, [], ◌∷◌, ◌++◌, length, arith, All,
  All-append, append-nil, keep,
}
use footscreen.Floats.{Floats}
use footscreen.MessageData.{message_id_first}
use footscreen.Handlers.{MessageHandler}
use footscreen.Game.{Game}
use footscreen.Game.Level.{Memory}
use footscreen.Game.Level.Registration.{count_up, ObstaclesNumbered, owned}
use footscreen.Game.Level.Destruction.{
  outside, destroy_units-destroy_obstacles, keep-outside_low, keep-outside_append, keep-outside_own,
}
use footscreen.Server.{GameNetworkServer}
use footscreen.GameServer.{GameServer}
use footscreen.GameServer.Loading.{GameCallbacks, initialize_game_handlers, destroy_game, load_game}
use footscreen.GameServer.Loading.Loaded.{
  units_in, objects_in, IsLoaded, running, load_game-IsLoaded,
}

-- The three handlers of a game.
abbrev pub game_handlers : {C : Type 0} → GameCallbacks C → List (MessageHandler C)
unfolding initialize_game_handlers
game_handlers k = initialize_game_handlers k []

module _ {C : Type 0} (k : GameCallbacks C) where
  pub initialize-append :
      (hs : List (MessageHandler C)) → initialize_game_handlers k hs ≡ hs ++ game_handlers k
  unfolding initialize_game_handlers
  initialize-append [] = refl
  initialize-append (h ∷ hs) = ap (◌∷◌ h) (initialize-append hs)

  game_handlers-low : (a : ℕ) → message_id_first ≤ a → All (λ h. h.message_id < a) (game_handlers k)
  unfolding initialize_game_handlers
  game_handlers-low a low = (omega (arith, low), (omega (arith, low), (omega (arith, low), tt)))

All-below :
    {C : Type 0} (a b : ℕ) (hs : List (MessageHandler C))
    → a ≤ b
    → All (λ h. h.message_id < a) hs
    → All (λ h. h.message_id < b) hs
All-below a b [] le low = tt
All-below a b (h ∷ hs) le low = (omega (arith, le, low.0), All-below a b hs le low.1)

module _ {F D C : Type 0} (f : Floats F D) (memory : Memory F C) where
  -- The destruction of a game takes back what its objects registered, and nothing else.
  destroy_game-IsLoaded :
      (level a : ℕ) (g : Game F D) (before after : List (MessageHandler C))
      → message_id_first ≤ a
      → IsLoaded level a g
      → All (λ h. h.message_id < a) before
      → All (λ h. h.message_id < a) after
      → destroy_game (some g) ((before ++ owned f memory (count_up a (objects_in level))) ++ after)
        ≡ before ++ after
  unfolding destroy_game
  destroy_game-IsLoaded level a g before after low (units, size, obstacles, count) below above =
      let own = owned f memory (count_up a (objects_in level)) in
      let n = length g.game_units + length g.game_obstacles in
      let fits : n ≡ objects_in level = omega (arith, size, count) in
      destroy_units-destroy_obstacles a g.game_units g.game_obstacles ((before ++ own) ++ after) low
        units
        (subst (λ b. ObstaclesNumbered b g.game_obstacles) {x = a + units_in level}
          {y = a + length g.game_units} (omega (arith, size)) obstacles)
      ∙ keep-outside_append a n (before ++ own) after
      ∙ ap (λ hs. hs ++ keep (outside a n) after) (keep-outside_append a n before own)
      ∙ (λ i.
          (keep-outside_low a n before below i
            ++ keep-outside_own memory.update_of a n a (objects_in level) (omega arith)
                (omega (arith, fits)) i)
          ++ keep-outside_low a n after above i)
      ∙ ap (λ hs. hs ++ after) (append-nil before)

  -- Loading a level into a running server without a game, and then another level: both loads succeed.
  -- The first level's objects have taken their handlers back and the second level's have one each,
  -- under the IDs that follow; but the three handlers that are bound to the first game, which is
  -- destroyed, are still there. This is where the server's own handlers are for reserved IDs and the
  -- counter of IDs does not wrap around.
  pub load_game-load_game :
      (k₁ k₂ : GameCallbacks C) (level₁ level₂ next : ℕ) (net : GameNetworkServer C)
      (hs : List (MessageHandler C))
      → All (λ h. h.message_id < message_id_first) hs
      → message_id_first ≤ next
      → next + objects_in level₁ + objects_in level₂ < 65536
      → let middle = next + objects_in level₁ in
        (s t : GameServer F D C) × (g : Game F D) × (load_game f memory k₁ level₁
            (running f memory net hs none)
            next
          ≡ some (s, middle))
        × (load_game f memory k₂ level₂ s middle ≡ some (t, middle + objects_in level₂))
        × (t
            ≡ running f memory net
                (((hs ++ game_handlers k₁) ++ game_handlers k₂)
                  ++ owned f memory (count_up middle (objects_in level₂)))
                (some g))
        × IsLoaded level₂ middle g
  unfolding destroy_game
  load_game-load_game k₁ k₂ level₁ level₂ next net hs reserved low high =
      let middle = next + objects_in level₁ in
      let own = owned f memory (count_up next (objects_in level₁)) in
      let hs₁ = initialize_game_handlers k₁ hs ++ own in
      let (g₁, loaded₁, placed₁, first) =
        load_game-IsLoaded f memory k₁ level₁ net hs none next low (omega (arith, high)) in
      let (g₂, loaded₂, placed₂, second) =
        load_game-IsLoaded f memory k₂ level₂ net hs₁ (some g₁) middle (omega (arith, low))
          (omega (arith, high)) in
      let left : destroy_game (some g₁) (initialize_game_handlers k₂ hs₁)
          ≡ (hs ++ game_handlers k₁) ++ game_handlers k₂ =
        ap (destroy_game (some g₁)) (
          initialize-append k₂ hs₁
          ∙ ap (λ h. (h ++ own) ++ game_handlers k₂) (initialize-append k₁ hs))
        ∙ destroy_game-IsLoaded level₁ next g₁ (hs ++ game_handlers k₁) (game_handlers k₂) low
            loaded₁
            (All-append _ hs (game_handlers k₁) (All-below message_id_first next hs low reserved)
              (game_handlers-low k₁ next low))
            (game_handlers-low k₂ next low) in
      (
        running f memory net hs₁ (some g₁),
        running f memory net
            (destroy_game (some g₁) (initialize_game_handlers k₂ hs₁)
              ++ owned f memory (count_up middle (objects_in level₂)))
            (some g₂),
        g₂,
        first,
        second,
        ap
            (λ h.
              running f memory net (h ++ owned f memory (count_up middle (objects_in level₂)))
                (some g₂))
            left,
        loaded₂,
      )
