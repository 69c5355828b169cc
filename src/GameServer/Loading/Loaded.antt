-- ===== src/GameServer/Loading/Loaded.antt =====
-- What a level is after `loadGame` of uist-game/GameServer.cpp: its objects, their IDs and handlers.
use mathlib.Core.Option.{some-injective}
use mathlib.Core.Path.{subst}
use footscreen.Base.{
  map, ℕ, zero, suc, ◌+◌, ◌≤◌, ◌<◌, ◌≡◌, refl, sym, ap, ◌∙◌, some, List, [], ◌∷◌, ◌++◌, length,
  ◌>>=◌, arith, true, false, append_assoc, map-append, length-append, Option,
}
use footscreen.Floats.{Floats}
use footscreen.MessageData.{message_id_first, id_first_client}
use footscreen.Handlers.{MessageHandler}
use footscreen.Message.Identity.{own_handler}
use footscreen.Units.{GameUnit}
use footscreen.Game.{Game, new_game, reset}
use footscreen.Game.Level.{Layout, Memory, Registry, load, layout_of, load_units}
use footscreen.Game.Lookup.{units_of}
use footscreen.Game.Level.Placement.{layout_of-length, place, placed, site, sites, load-placed}
use footscreen.Game.Level.Registration.{
  count_up, UnitsNumbered, ObstaclesNumbered, owned, load_units-registers, load_obstacles-registers,
}
use footscreen.Server.{GameNetworkServer}
use footscreen.GameServer.{GameServer}
use footscreen.GameServer.Loading.{GameCallbacks, initialize_game_handlers, destroy_game, load_game}

count_up-append : (a n m : ℕ) → count_up a n ++ count_up (a + n) m ≡ count_up a (n + m)
count_up-append a zero m =
    ap (λ b. count_up b m) {x = a + 0} {y = a} (omega arith)
    ∙ ap (count_up a) {x = m} {y = 0 + m} (omega arith)
count_up-append a (suc n) m =
    ap (◌∷◌ a) (
      ap (λ b. count_up (a + 1) n ++ count_up b m) {x = a + suc n} {y = a + 1 + n} (omega arith)
      ∙ count_up-append (a + 1) n m)
    ∙ ap (count_up a) {x = suc (n + m)} {y = suc n + m} (omega arith)

UnitsNumbered-append :
    {F : Type 0} (a : ℕ) (us vs : List (GameUnit F))
    → UnitsNumbered a us
    → UnitsNumbered (a + length us) vs
    → UnitsNumbered a (us ++ vs)
UnitsNumbered-append a [] vs first second =
    subst (λ b. UnitsNumbered b vs) {x = a + 0} {y = a} (omega arith) second
UnitsNumbered-append a (u ∷ us) vs (one, more) second = (
  one,
  UnitsNumbered-append (a + 1) us vs more (
      subst (λ b. UnitsNumbered b vs) {x = a + suc (length us)} {y = a + 1 + length us}
        (omega arith) second),
)

-- How many units and obstacles a level has.
abbrev pub units_in : ℕ → ℕ
units_in level =
    length (layout_of level).unit_positions_player_1
    + length (layout_of level).unit_positions_player_2

abbrev pub obstacles_in : ℕ → ℕ
obstacles_in level = length (layout_of level).obstacle_positions

abbrev pub objects_in : ℕ → ℕ
objects_in level = units_in level + obstacles_in level

-- A game with the objects of a level, under IDs from a number on.
abbrev pub IsLoaded : {F D : Type 0} → ℕ → ℕ → Game F D → Type 0
IsLoaded level a g =
    UnitsNumbered a g.game_units
    × (length g.game_units ≡ units_in level)
    × ObstaclesNumbered (a + units_in level) g.game_obstacles
    × (length g.game_obstacles ≡ obstacles_in level)

-- The units of the two players and the obstacles stand where a layout says.
abbrev pub IsPlaced : {F D : Type 0} → Floats F D → Layout → Game F D → Type 0
IsPlaced f layout g =
    (map place (units_of id_first_client g.game_units)
      ≡ placed f 1 false layout.unit_positions_player_1)
    × (map place (units_of (id_first_client + 1) g.game_units)
        ≡ placed f 1 true layout.unit_positions_player_2)
    × (map site g.game_obstacles ≡ sites f layout.obstacle_positions layout.obstacle_radii)

module _ {F D C : Type 0} (f : Floats F D) (memory : Memory F C) where
  load-IsPlaced :
      (level : ℕ) (old g : Game F D) (r end : Registry C)
      → load f memory level old r ≡ some (g, end)
      → IsPlaced f (layout_of level) g
  load-IsPlaced level old g r end e =
      let (h, end', e', first, second, obstacles, started, finished, time, own) =
        load-placed f memory level old r in
      subst (λ (p : Game F D × Registry C). IsPlaced f (layout_of level) p.0) {x = (h, end')}
        {y = (g, end)} (some-injective _ _ (sym e' ∙ e)) (first, second, obstacles)

  own_handlers-append :
      (a n m : ℕ) (hs : List (MessageHandler C))
      → (hs ++ owned f memory (count_up a n)) ++ owned f memory (count_up (a + n) m)
        ≡ hs ++ owned f memory (count_up a (n + m))
  own_handlers-append a n m hs =
      append_assoc hs (owned f memory (count_up a n)) (owned f memory (count_up (a + n) m))
      ∙ ap (◌++◌ hs) (
          sym (
            map-append (λ id. own_handler (memory.update_of id) id) (count_up a n)
              (count_up (a + n) m))
          ∙ ap (owned f memory) (count_up-append a n m))

  load-IsLoaded :
      (level : ℕ) (r : Registry C)
      → message_id_first ≤ r.next_message_id
      → r.next_message_id + objects_in level < 65536
      → (g : Game F D) × (end : Registry C) × (load f memory level (new_game f) r ≡ some (g, end))
        × IsLoaded level r.next_message_id g
        × (end.message_handlers
            ≡ r.message_handlers ++ owned f memory (count_up r.next_message_id (objects_in level)))
        × (end.next_message_id ≡ r.next_message_id + objects_in level)
  unfolding load new_game reset
  load-IsLoaded level r low high =
      let layout = layout_of level in
      let n = r.next_message_id in
      let hs = r.message_handlers in
      let first = length layout.unit_positions_player_1 in
      let second = length layout.unit_positions_player_2 in
      let third = length layout.obstacle_positions in
      let (sheep, r₁) = load_units f memory 1 4 false layout.unit_positions_player_1 r in
      let (wolves, r₂) = load_units f memory 1 5 true layout.unit_positions_player_2 r₁ in
      let (num₁, size₁, own₁, next₁) =
        load_units-registers f memory 1 4 false layout.unit_positions_player_1 r low
          (omega (arith, high)) in
      let (num₂, size₂, own₂, next₂) =
        load_units-registers f memory 1 5 true layout.unit_positions_player_2 r₁
          (omega (arith, low, next₁)) (omega (arith, high, next₁)) in
      let (os, end, e, num₃, size₃, own₃, next₃) =
        load_obstacles-registers f memory layout.obstacle_positions layout.obstacle_radii r₂
          (layout_of-length level) (omega (arith, low, next₁, next₂))
          (omega (arith, high, next₁, next₂)) in
      let at : r₂.next_message_id ≡ n + units_in level = omega (arith, next₁, next₂) in
      let both : r₂.message_handlers ≡ hs ++ owned f memory (count_up n (first + second)) =
        own₂
        ∙ (λ i. own₁ i ++ owned f memory (count_up (next₁ i) second))
        ∙ own_handlers-append n first second hs in
      (
        record {
          has_started = false;
          has_finished = false;
          last_unit_time = f.d_minus_one;
          game_units = sheep ++ wolves;
          game_obstacles = os;
          own_player_id = 0;
        },
        end,
        rw e refl,
        (
          UnitsNumbered-append n sheep wolves num₁ (
              subst (λ b. UnitsNumbered b wolves) {y = n + length sheep}
                (omega (arith, next₁, size₁)) num₂),
          length-append sheep wolves ∙ omega (arith, size₁, size₂),
          subst (λ b. ObstaclesNumbered b os) {y = n + units_in level} at num₃,
          size₃,
        ),
        own₃
            ∙ (λ i. both i ++ owned f memory (count_up (at i) third))
            ∙ own_handlers-append n (first + second) third hs,
        omega (arith, next₁, next₂, next₃),
      )

  -- A server that runs, with its handlers and perhaps a game.
  abbrev pub running :
      GameNetworkServer C → List (MessageHandler C) → Option (Game F D) → GameServer F D C
  running net hs game = record {
    game_network_server = some (record net { message_handlers = hs });
    game = game;
  }

  pub load_game-IsLoaded :
      (k : GameCallbacks C) (level : ℕ) (net : GameNetworkServer C) (hs : List (MessageHandler C))
      (old : Option (Game F D)) (next : ℕ)
      → message_id_first ≤ next
      → next + objects_in level < 65536
      → (g : Game F D) × IsLoaded level next g
        × IsPlaced f (layout_of level) g
        × (load_game f memory k level (running net hs old) next
            ≡ some (
              running net
                  (destroy_game old (initialize_game_handlers k hs)
                    ++ owned f memory (count_up next (objects_in level)))
                  (some g),
              next + objects_in level,
            ))
  unfolding load_game
  load_game-IsLoaded k level net hs old next low high =
      let r : Registry C = record {
        message_handlers = destroy_game old (initialize_game_handlers k hs);
        next_message_id = next;
      } in
      let (g, end, e, loaded, handlers, after) = load-IsLoaded level r low high in
      (
        g,
        loaded,
        load-IsPlaced level (new_game f) g r end e,
        ap
              (λ o. o >>= λ (g, end). some (
                record {
                  game_network_server =
                      some (record net { message_handlers = end.message_handlers });
                  game = some g;
                },
                end.next_message_id,
              ))
              e
            ∙ (λ i. some (running net (handlers i) (some g), after i)),
      )
