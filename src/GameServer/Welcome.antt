-- ===== src/GameServer/Welcome.antt =====
-- `handleSessionAccepted` of uist-game/GameServer.cpp: what a new client is told, and what the client
-- makes of it in `handleNewPlayerID` of uist-game/Game.cpp.
use footscreen.Base.{
  ℕ, ◌≡◌, ap, ◌∙◌, true, Option, none, some, List, [], ◌∷◌, ◌++◌, map, length, ◌>>=◌, All,
}
use footscreen.MessageData.{
  MessageHeader, MessageData, max_message_length, set_network_server_session,
}
use footscreen.Actions.{Level}
use footscreen.Handlers.{message_new_player_id}
use footscreen.Message.{Region, synchronize, update_frequency_once}
use footscreen.Requests.{set_new_player_id, PlayerData, new_player_id}
use footscreen.Requests.Sending.{IsCarried, synchronize-new_request, read_request-sent}
use footscreen.Game.{Game}
use footscreen.Game.Sending.{synchronize_game, IsSendable, append, id_of, synchronize_game-ids}
use footscreen.Game.Updates.{handle_new_player_id}
use footscreen.Server.{GameNetworkServer, PlayerProfile, player_profile_by_session}
use footscreen.GameServer.{GameServer}

module _ {F D C N : Type 0} (send : MessageData → N → Option N) (report : Level → N → N)
    (garbage : MessageHeader) (bytes : List ℕ) where
  -- From the profile on; `send` is that of the session.
  unfoldable pub welcome_player :
      C
      → Region PlayerData
      → GameNetworkServer C
      → Option PlayerProfile
      → Option (Game F D)
      → N
      → Option N
  unfolding new_player_id synchronize synchronize_game
  welcome_player self region net none game n = some n
  welcome_player self region net (some p) game n =
      let r = (new_player_id self true region net.message_handlers).0 in
      synchronize send report garbage bytes true update_frequency_once r.message
        (set_new_player_id p.player_id r.network_data) n
      >>= λ n'. game >>= λ g. synchronize_game send report garbage bytes true g n'

  unfoldable pub welcome_session : C → Region PlayerData → ℕ → GameServer F D C → N → Option N
  unfolding welcome_player player_profile_by_session
  welcome_session self region session s n = s.game_network_server >>= λ net.
      welcome_player self region net (player_profile_by_session (some session) net.player_profiles)
        s.game n

module _ {F D C E : Type 0} (report : Level → List MessageData → List MessageData)
    (garbage : MessageHeader) (bytes : List ℕ) (size : length bytes ≡ max_message_length) (self : C)
    (client : E) (region : Region PlayerData) (carried : IsCarried message_new_player_id region)
    (s : GameServer F D C) (net : GameNetworkServer C) (p : PlayerProfile) (g : Game F D)
    (session : ℕ) (running : s.game_network_server ≡ some net) (playing : s.game ≡ some g)
    (known : player_profile_by_session (some session) net.player_profiles ≡ some p) where
  reached :
      (n n' : List MessageData)
      → synchronize append report garbage bytes true update_frequency_once
          (new_player_id self true region net.message_handlers).0.message
          (record { player_id = p.player_id })
          n
        ≡ some n'
      → welcome_session append report garbage bytes self region session s n
        ≡ synchronize_game append report garbage bytes true g n'
  unfolding welcome_session welcome_player
  reached n n' e =
      ap
        (λ o. o >>= λ k.
          welcome_player append report garbage bytes self region k
            (player_profile_by_session (some session) k.player_profiles) s.game n)
        running
      ∙ ap (λ o. welcome_player append report garbage bytes self region net o s.game n) known
      ∙ ap (λ o. o >>= λ k. s.game >>= λ h. synchronize_game append report garbage bytes true h k) e
      ∙ ap (λ o. o >>= λ h. synchronize_game append report garbage bytes true h n') playing

  -- When a running server with a game accepts a session that it has a profile for, and the session
  -- takes every package, then the first package makes any client's game that receives it take the ID
  -- of the profile as its own and nothing else, and after it there is one package for each object,
  -- under its ID: first the units and then the obstacles, in order; where each object has one enabled
  -- type, and the bytes of the request fit a package and tell its value.
  pub welcome_session-handle_new_player_id :
      (n : List MessageData)
      → All (λ u. IsSendable u.message) g.game_units
      → All (λ o. IsSendable o.message) g.game_obstacles
      → (m : MessageData) × (ps : List MessageData) × (welcome_session append report garbage bytes
            self region session s n
          ≡ some ((n ++ m ∷ []) ++ ps))
        × ((h : Game F D)
            → handle_new_player_id client region m h
              ≡ some (record h { own_player_id = p.player_id }))
        × (map id_of ps
            ≡ map (λ u. u.message.message_id) g.game_units
              ++ map (λ o. o.message.message_id) g.game_obstacles)
  unfolding new_player_id handle_new_player_id set_network_server_session
  welcome_session-handle_new_player_id n units obstacles =
      let d : PlayerData = record { player_id = p.player_id } in
      let (m, sent, header, body, formed) =
        synchronize-new_request append report garbage bytes size self message_new_player_id region
          carried (record { player_id = 0 }) d net.message_handlers n in
      let (ps, e, same) =
        synchronize_game-ids report garbage bytes size g (n ++ m ∷ []) units obstacles in
      let read =
        read_request-sent client message_new_player_id region carried (record { player_id = 0 }) d m
          m.network_server_session header body formed in
      (
        m,
        ps,
        reached n (n ++ m ∷ []) sent ∙ e,
        λ h. ap (λ o. o >>= λ x. some (record h { own_player_id = x.player_id })) read,
        same,
      )
