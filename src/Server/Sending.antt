-- ===== src/Server/Sending.antt =====
-- What `GameNetworkServer::send` does on each of its branches.
use footscreen.Server.Players.{IsServer, player_profile_by_id-get_elem?}
use footscreen.Base.{
  ℕ, zero, suc, ltb, length, get_elem?, if◌then◌else◌, ◌+◌, ◌≡◌, ◌≢◌, refl, none, some, List, [],
  ◌∷◌, map, arith, is_some,
}
use footscreen.MessageData.{MessageData, message_id_none, id_first_client, id_all_clients}
use footscreen.Handlers.{message_undefined}
use footscreen.Actions.{error}
use footscreen.Server.{PlayerProfile, GameNetworkServer, send, broadcast, nothing_but}

-- The profiles of some sessions.
abbrev pub AreConnected : List PlayerProfile → List ℕ → Type 0
AreConnected [] [] = Unit {0}
AreConnected (p ∷ ps) (s ∷ ss) = (p.session ≡ some s) × AreConnected ps ss
AreConnected _ _ = ⊥

broadcast-map :
    (m : MessageData) (ps : List PlayerProfile) (ss : List ℕ)
    → AreConnected ps ss
    → broadcast m ps ≡ some (map (λ s. (s, m)) ss)
unfolding broadcast
broadcast-map m [] [] c = refl
broadcast-map m [] (s ∷ ss) c = absurd c
broadcast-map m (p ∷ ps) [] c = absurd c
broadcast-map m (p ∷ ps) (s ∷ ss) c = rw (c.0, broadcast-map m ps ss c.1)

is_some-get_elem? :
    {A : Type 0} (i : ℕ) (xs : List A) → is_some (get_elem? xs i) ≡ ltb i (length xs)
is_some-get_elem? i [] = ground arith
is_some-get_elem? zero (x ∷ xs) = ground arith
is_some-get_elem? (suc i) (x ∷ xs) = ground (arith, is_some-get_elem? i xs)

module _ {C : Type 0} (m : MessageData) (g : GameNetworkServer C)
    (typed : m.header.content_type ≢ message_undefined)
    (named : m.header.message_id ≢ message_id_none) where
  -- A package with a type and an ID for all clients goes to each session once, in the order of the
  -- players, and nothing is logged.
  pub send-broadcast :
      (ss : List ℕ)
      → AreConnected g.player_profiles ss
      → send m id_all_clients g ≡ some (record { packages = map (λ s. (s, m)) ss; logged = [] })
  unfolding send
  send-broadcast ss c = ground (arith, broadcast-map m g.player_profiles ss c)

  -- One for a single player never arrives. With the players numbered from the first client's ID, the
  -- `i`-th one is refused with an error and gets nothing if there is such a player, and the null
  -- profile is followed if not.
  pub send-single :
      (i : ℕ)
      → IsServer g
      → send m (id_first_client + i) g
        ≡ (if ltb i (length g.player_profiles) then some (nothing_but error) else none)
  unfolding send
  send-single i v =
      ground (arith, player_profile_by_id-get_elem? i g v, is_some-get_elem? i g.player_profiles)
