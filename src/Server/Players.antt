-- ===== src/Server/Players.antt =====
-- The player IDs of uist-game/GameNetworkServer.cpp.
use footscreen.Base.{
  ℕ, zero, suc, ◌+◌, ◌<◌, ◌≡◌, refl, ap, ◌∙◌, none, some, List, [], ◌∷◌, ◌++◌, length,
  length-append, get_elem?, arith,
}
use footscreen.MessageData.{id_first_client}
use footscreen.Server.{
  PlayerProfile, GameNetworkServer, player_profile_by_id, player_profile_by_session,
  handle_session_accepted,
}

-- The players have the IDs from `first` on, in order.
abbrev pub IsNumbered : ℕ → List PlayerProfile → Type 0
IsNumbered first [] = Unit {0}
IsNumbered first (p ∷ ps) = (p.player_id ≡ first) × IsNumbered (suc first) ps

-- The IDs run from the first client's up to the next one, which is a 16-bit number.
pub record IsServer {C : Type 0} (g : GameNetworkServer C) : Type 0 where
  pub numbered : IsNumbered id_first_client g.player_profiles
  pub next_eq : g.next_player_id ≡ id_first_client + length g.player_profiles
  pub next_lt : g.next_player_id < 65536

IsNumbered-append :
    (first : ℕ) (ps : List PlayerProfile) (p : PlayerProfile)
    → IsNumbered first ps
    → p.player_id ≡ first + length ps
    → IsNumbered first (ps ++ p ∷ [])
IsNumbered-append first [] p n e = (omega arith, tt)
IsNumbered-append first (q ∷ ps) p n e = (n.0, IsNumbered-append (suc first) ps p n.1 (omega arith))

-- Until the 16 bits are used up, accepting a session keeps the players numbered in the order in which
-- they came.
pub handle_session_accepted-IsServer :
    {C : Type 0} (s : ℕ) (g : GameNetworkServer C)
    → IsServer g
    → g.next_player_id < 65535
    → IsServer (handle_session_accepted s g)
unfolding handle_session_accepted
handle_session_accepted-IsServer s g v room = record {
  numbered = IsNumbered-append id_first_client g.player_profiles _ v.numbered v.next_eq;
  next_eq = omega (
    arith,
    v.next_eq,
    length-append g.player_profiles
        ((record { player_id = g.next_player_id; session = some s }) ∷ []),
  );
  next_lt = omega arith;
}

by_id-get_elem? :
    (first i : ℕ) (ps : List PlayerProfile)
    → IsNumbered first ps
    → player_profile_by_id (first + i) ps ≡ get_elem? ps i
unfolding player_profile_by_id
by_id-get_elem? first i [] n = refl
by_id-get_elem? first zero (p ∷ ps) n = ground arith
by_id-get_elem? first (suc i) (p ∷ ps) n =
    let later : player_profile_by_id (first + suc i) ps ≡ get_elem? ps i =
      ap (λ k. player_profile_by_id k ps) {x = first + suc i} {y = suc first + i} (omega arith)
      ∙ by_id-get_elem? (suc first) i ps n.1 in
    ground (arith, later)

-- With the players numbered in the order in which they came, the first client's ID plus `i` finds the
-- `i`-th of them, and nobody if there are not that many.
pub player_profile_by_id-get_elem? :
    {C : Type 0} (i : ℕ) (g : GameNetworkServer C)
    → IsServer g
    → player_profile_by_id (id_first_client + i) g.player_profiles ≡ get_elem? g.player_profiles i
player_profile_by_id-get_elem? i g v =
    by_id-get_elem? id_first_client i g.player_profiles v.numbered

by_session-append :
    (s : ℕ) (ps : List PlayerProfile) (p : PlayerProfile)
    → player_profile_by_session (some s) ps ≡ none
    → p.session ≡ some s
    → player_profile_by_session (some s) (ps ++ p ∷ []) ≡ some p
unfolding player_profile_by_session
by_session-append s [] p fresh e = ground arith
by_session-append s (q ∷ ps) p fresh e = ground (arith, by_session-append s ps p)

-- A session that had no player has one once it is accepted: the player with the next ID.
pub player_profile_by_session-handle_session_accepted :
    {C : Type 0} (s : ℕ) (g : GameNetworkServer C)
    → player_profile_by_session (some s) g.player_profiles ≡ none
    → player_profile_by_session (some s) (handle_session_accepted s g).player_profiles
      ≡ some (record { player_id = g.next_player_id; session = some s })
unfolding handle_session_accepted
player_profile_by_session-handle_session_accepted s g fresh =
    by_session-append s g.player_profiles _ fresh refl
