-- ===== src/GameServer/Running.antt =====
-- The loop of uist-game/GameServer.cpp: one turn, and what `stop` does to it. The mutex makes the two
-- steps; the timers of the game are read by the caller.
use footscreen.Base.{
  ℕ, ◌≡◌, refl, ap, Bool, true, false, Option, none, some, List, ◌++◌, map, length, ◌>>=◌, All,
}
use footscreen.Floats.{Floats}
use footscreen.MessageData.{MessageHeader, MessageData, max_message_length}
use footscreen.Actions.{Level}
use footscreen.Game.{Game, proceed, stop}
use footscreen.Game.Sending.{synchronize_game, IsSendable, append, id_of, synchronize_game-ids}
use footscreen.Server.{GameNetworkServer}
use footscreen.GameServer.{GameServer}

-- `GameServer::stop`; the network server is deleted after its own `stop`.
unfoldable pub stop_server : {F D C : Type 0} → GameServer F D C → Option (GameServer F D C)
unfolding stop
stop_server s = s.game >>= λ g. s.game_network_server >>= λ net.
    some (record s { game_network_server = none; game = some (stop g) })

module _ {F D C : Type 0} (f : Floats F D) (time : F) (duration : D) (clock : ℕ → D) where
  unfoldable pub process_game : GameServer F D C → GameServer F D C
  process_game s = elim s.game [
    | none ↦ s
    | some g ↦ record s { game = some (proceed f time duration clock g).0 }
  ]

  module _ {N : Type 0} (send : MessageData → N → Option N) (report : Level → N → N)
      (garbage : MessageHeader) (bytes : List ℕ) where
    -- One turn: whether there is another, the server, and the network. `send` is that of the server
    -- to all clients. The turn that is the last returns with the mutex held.
    unfoldable pub loop_turn : GameServer F D C → N → Option (Bool × GameServer F D C × N)
    unfolding process_game
    loop_turn s n = elim s.game_network_server [
      | none ↦ some (false, s, n)
      | some net ↦
          let s' = process_game s in
          s'.game >>= λ g.
          synchronize_game send report garbage bytes true g n >>= λ n'. some (true, s', n')
    ]

-- A server that runs, with a game.
abbrev pub playing : {F D C : Type 0} → GameNetworkServer C → Game F D → GameServer F D C
playing net g = record { game_network_server = some net; game = some g }

module _ {F D C : Type 0} (f : Floats F D) (time : F) (duration : D) (clock : ℕ → D)
    (report : Level → List MessageData → List MessageData) (garbage : MessageHeader)
    (bytes : List ℕ) (size : length bytes ≡ max_message_length) (net : GameNetworkServer C)
    (g : Game F D) where
  abbrev pub next : Game F D
  next = (proceed f time duration clock g).0

  loop_turn-playing :
      (n n' : List MessageData)
      → synchronize_game append report garbage bytes true next n ≡ some n'
      → loop_turn f time duration clock append report garbage bytes (playing net g) n
        ≡ some (true, playing net next, n')
  unfolding loop_turn process_game
  loop_turn-playing n n' e = ap (λ o. o >>= λ k. some (true, playing net next, k)) e

  loop_turn-stop_server :
      (t : GameServer F D C) × (stop_server (playing net g) ≡ some t)
      × ((k : List MessageData)
          → loop_turn f time duration clock append report garbage bytes t k ≡ some (false, t, k))
  unfolding loop_turn stop_server
  loop_turn-stop_server =
      (record { game_network_server = none; game = some (stop g) }, refl, λ k. refl)

  -- A turn of the loop of a running server with a game lets the game proceed and then sends one
  -- package for each object, under its ID: first the units and then the obstacles, in order; and
  -- there is another turn. The server can be stopped, and then the next turn is the last and sends
  -- nothing. This is where each object of the game that has proceeded has one
  -- enabled type, and all clients take every package.
  pub loop_turn-stop_server-ids :
      (n : List MessageData)
      → All (λ u. IsSendable u.message) next.game_units
      → All (λ o. IsSendable o.message) next.game_obstacles
      → ((ps : List MessageData) × (loop_turn f time duration clock append report garbage bytes
              (playing net g)
              n
            ≡ some (true, playing net next, n ++ ps))
          × (map id_of ps
              ≡ map (λ u. u.message.message_id) next.game_units
                ++ map (λ o. o.message.message_id) next.game_obstacles))
        × ((t : GameServer F D C) × (stop_server (playing net g) ≡ some t)
            × ((k : List MessageData)
                → loop_turn f time duration clock append report garbage bytes t k
                  ≡ some (false, t, k)))
  loop_turn-stop_server-ids n units obstacles =
      let (ps, e, same) = synchronize_game-ids report garbage bytes size next n units obstacles in
      ((ps, loop_turn-playing n (n ++ ps) e, same), loop_turn-stop_server)
