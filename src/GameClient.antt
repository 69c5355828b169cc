-- ===== src/GameClient.antt =====
-- uist-game/GameClient.h and GameClient.cpp: the client's network and its game. `run` starts a thread,
-- which is not modelled; `none` is a null pointer that is followed.
use footscreen.Base.{ℕ, ◌≡◌, refl, Option, none, some, List, [], ◌∷◌, ◌++◌, ◌>>=◌}
use footscreen.Floats.{Floats}
use footscreen.MessageData.{MessageData}
use footscreen.Actions.{info, Action, logs}
use footscreen.Handlers.{MessageHandler}
use footscreen.Client.{
  NetworkClient, new_network_client, connect_to_server, disconnect_from_server, stop_as_game,
}
use footscreen.Game.{Game, new_game, stop}

-- `GameNetworkClient`, with its handlers.
pub record GameNetworkClient (C : Type 0) : Type 0 where
  pub message_handlers : List (MessageHandler C)
  pub network_client : NetworkClient

pub record GameClient (F D C : Type 0) : Type 0 where
  pub game_network_client : Option (GameNetworkClient C)
  pub game : Game F D

-- The bytes are what the buffer held; the handlers of the game are left out.
unfoldable pub new_game_client :
    {F D C : Type 0} → Floats F D → List ℕ → MessageData → GameClient F D C
unfolding new_network_client new_game
new_game_client f bytes message = record {
  game_network_client =
      some (record { message_handlers = []; network_client = new_network_client bytes message });
  game = new_game f;
}

module _ {F D C : Type 0} where
  unfoldable pub connect_client : GameClient F D C → Option (GameClient F D C)
  unfolding connect_to_server
  connect_client g = g.game_network_client >>= λ k. some (record g {
    game_network_client = some (record k { network_client = connect_to_server k.network_client });
  })

  -- `signOut`, and then the network client's own `stop`. The signal is disconnected between, so that
  -- what `stop` signals is heard by nobody.
  unfoldable pub stop_game_client : GameClient F D C → GameClient F D C × List Action
  unfolding stop disconnect_from_server stop_as_game
  stop_game_client g = elim g.game_network_client [
    | none ↦ (record g { game = stop g.game }, [])
    | some k ↦
        let (c, signed_out) = disconnect_from_server k.network_client in
        let (hs, d, stopped) = stop_as_game k.message_handlers c in
        (record { game_network_client = none; game = stop g.game }, signed_out ++ stopped)
  ]

  unfoldable pub handle_client_closed : GameClient F D C → GameClient F D C × List Action
  handle_client_closed g = (g, logs info ∷ [])

  -- Stopping a client twice asks nothing of the network the second time, and leaves no unit.
  pub stop_game_client-stop_game_client :
      (k : Option (GameNetworkClient C)) (game : Game F D)
      → let h = (stop_game_client (record { game_network_client = k; game = game })).0 in
        ((stop_game_client h).1 ≡ []) × (h.game_network_client ≡ none) × (h.game.game_units ≡ [])
  unfolding stop_game_client stop
  stop_game_client-stop_game_client none game = (refl, refl, refl)
  stop_game_client-stop_game_client (some k) game = (refl, refl, refl)
