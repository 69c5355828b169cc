-- ===== src/Listener/Accepting.antt =====
-- The sessions of uist-game/NetworkServer.cpp become the players of uist-game/GameNetworkServer.cpp,
-- whose `run` connects the signal of the one with a handler of the other.
use footscreen.Base.{
  ℕ, ◌+◌, ◌<◌, ◌≡◌, refl, sym, ap, ◌∙◌, Bool, true, false, Option, some, List, [], ◌∷◌, ◌++◌, map,
  map-append, length, arith,
}
use footscreen.MessageData.{id_first_client}
use footscreen.Server.{PlayerProfile, GameNetworkServer, run, handle_session_accepted}
use footscreen.Server.Players.{IsServer, handle_session_accepted-IsServer}
use footscreen.Listener.{
  Call, async_accept, start_session, session_accepted, free_session, post_release, stop_service,
  NetworkServer, new_network_server, run_server, handle_accept, handle_accepts,
}

module _ {C : Type 0} where
  -- What the calls of the network server come to for the players.
  unfoldable pub accept_players : List Call → GameNetworkServer C → GameNetworkServer C
  accept_players [] g = g
  accept_players (session_accepted s ∷ calls) g = accept_players calls (handle_session_accepted s g)
  accept_players (async_accept s ∷ calls) g = accept_players calls g
  accept_players (start_session s ∷ calls) g = accept_players calls g
  accept_players (free_session s ∷ calls) g = accept_players calls g
  accept_players (post_release ∷ calls) g = accept_players calls g
  accept_players (stop_service ∷ calls) g = accept_players calls g

  -- The players are numbered, and their sessions are those of the network server, in order.
  pub record IsJoined (s : NetworkServer) (g : GameNetworkServer C) : Type 0 where
    pub server : IsServer g
    pub sessions : map (λ p. p.session) g.player_profiles ≡ map some s.sessions

  handle_session_accepted-IsJoined :
      (session : ℕ) (waiting : Option ℕ) (s : NetworkServer) (g : GameNetworkServer C)
      → IsJoined s g
      → g.next_player_id < 65535
      → IsJoined
          (record s { sessions = s.sessions ++ session ∷ []; waiting = waiting })
          (handle_session_accepted session g)
  unfolding handle_session_accepted
  handle_session_accepted-IsJoined session waiting s g v room = record {
    server = handle_session_accepted-IsServer session g v.server room;
    sessions =
        map-append (λ (p : PlayerProfile). p.session) g.player_profiles _
        ∙ ap (λ l. l ++ some session ∷ []) v.sessions
        ∙ sym (map-append some s.sessions (session ∷ []));
  }

  next-handle_session_accepted :
      (session : ℕ) (g : GameNetworkServer C)
      → g.next_player_id < 65535
      → (handle_session_accepted session g).next_player_id ≡ g.next_player_id + 1
  unfolding handle_session_accepted
  next-handle_session_accepted session g room = omega arith

  handle_accepts-IsJoined :
      (es : List Bool) (session : ℕ) (s : NetworkServer) (g : GameNetworkServer C)
      → IsJoined s g
      → g.next_player_id + length es < 65536
      → let (t, calls) = handle_accepts es session s in IsJoined t (accept_players calls g)
  unfolding handle_accepts handle_accept accept_players
  handle_accepts-IsJoined [] session s g v room = v
  handle_accepts-IsJoined (true ∷ es) session s g v room =
      handle_accepts-IsJoined es (session + 1) (record s { waiting = some (session + 1) }) g
        (record { server = v.server; sessions = v.sessions }) (omega arith)
  handle_accepts-IsJoined (false ∷ es) session s g v room =
      let less : g.next_player_id < 65535 = omega arith in
      handle_accepts-IsJoined es (session + 1)
        (record s { sessions = s.sessions ++ session ∷ []; waiting = some (session + 1) })
        (handle_session_accepted session g)
        (handle_session_accepted-IsJoined session (some (session + 1)) s g v less)
        (omega (arith, next-handle_session_accepted session g less))

  -- From the start of a server without players, whichever connections are accepted and whichever fail:
  -- as long as the 16 bits suffice, the players are numbered from the first client's ID on, in the order
  -- in which they came, and their sessions are exactly those that the network server keeps, in order.
  pub accept_players-run :
      (es : List Bool) (first : ℕ) (g : GameNetworkServer C)
      → g.player_profiles ≡ []
      → id_first_client + length es < 65536
      → let (s, started) = run_server first new_network_server in
        let (t, accepted) = handle_accepts es first s in
        IsJoined t (accept_players (started ++ accepted) (run g))
  unfolding run_server new_network_server run accept_players
  accept_players-run es first g empty room =
      handle_accepts-IsJoined es first (run_server first new_network_server).0 (run g)
        (record {
          server = record {
            numbered = rw empty tt;
            next_eq = rw empty refl;
            next_lt = omega arith;
          };
          sessions = rw empty refl;
        })
        room
