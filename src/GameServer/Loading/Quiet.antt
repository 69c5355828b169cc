-- ===== src/GameServer/Loading/Quiet.antt =====
-- Which of the handlers that `loadGame` of uist-game/GameServer.cpp leaves are for a request, and which
-- for the package of an object.
use footscreen.Base.{
  ℕ, zero, suc, ◌+◌, ◌≤◌, ◌≡◌, ◌⊎◌, inl, inr, refl, ◌∙◌, false, ◌||◌, [], ◌∷◌, ◌++◌, map, any,
  any-append, keep, ◌<◌, ◌==◌, Bool-cases, arith,
}
use footscreen.Floats.{Floats}
use footscreen.MessageData.{MessageData, message_id_first, message_id_event}
use footscreen.Handlers.{message_move_request, message_highlight_request, handles}
use footscreen.Handlers.Dispatch.{is_for}
use footscreen.Message.Identity.{own_handler}
use footscreen.Game.Level.{Memory}
use footscreen.Game.Level.Registration.{count_up, owned}
use footscreen.GameServer.Loading.{GameCallbacks, initialize_game_handlers}
use footscreen.GameServer.Loading.Reloading.{game_handlers}

abbrev pub IsRequest : ℕ → Type 0
IsRequest type = (type ≡ message_move_request) ⊎ (type ≡ message_highlight_request)

own-quiet :
    {C : Type 0} (update : ℕ → C) (type a n : ℕ)
    → message_id_first ≤ a
    → any
        (λ h. handles h type message_id_event)
        (map (λ id. own_handler (update id) id) (count_up a n))
      ≡ false
unfolding handles
own-quiet update type a zero low = refl
own-quiet update type a (suc n) low = ground (arith, own-quiet update type (a + 1) n)

game_handlers-quiet :
    {C : Type 0} (k : GameCallbacks C) (type : ℕ)
    → IsRequest type
    → any (λ h. handles h type message_id_event) (game_handlers k) ≡ false
unfolding handles initialize_game_handlers
game_handlers-quiet k type (inl move) = rw move refl
game_handlers-quiet k type (inr highlight) = rw highlight refl

module _ {F D C : Type 0} (f : Floats F D) (memory : Memory F C) (k : GameCallbacks C) where
  -- Neither the handlers of a game nor those of its objects are for a request.
  pub load_game-quiet :
      (type a n : ℕ)
      → IsRequest type
      → message_id_first ≤ a
      → any
          (λ h. handles h type message_id_event)
          (game_handlers k ++ owned f memory (count_up a n))
        ≡ false
  load_game-quiet type a n request low =
      any-append _ (game_handlers k) (owned f memory (count_up a n))
      ∙ (λ i. game_handlers-quiet k type request i || own-quiet memory.update_of type a n low i)

-- The objects' handlers that are for a package.
module _ {C : Type 0} (update : ℕ → C) (m : MessageData) where
  own-later :
      (a n : ℕ)
      → message_id_first ≤ a
      → m.header.message_id < a
      → keep (is_for m) (map (λ id. own_handler (update id) id) (count_up a n)) ≡ []
  unfolding handles
  own-later a zero low early = refl
  own-later a (suc n) low early = ground (arith, own-later (a + 1) n)

  pub own-kept :
      (a n : ℕ)
      → message_id_first ≤ a
      → a ≤ m.header.message_id
      → m.header.message_id < a + n
      → let id = m.header.message_id in
        keep (is_for m) (map (λ id. own_handler (update id) id) (count_up a n))
        ≡ own_handler (update id) id ∷ []
  unfolding handles
  own-kept a zero low from to = absurd (omega arith)
  own-kept a (suc n) low from to = elim (Bool-cases (a == m.header.message_id)) [
    | inl hit ↦ ground (arith, own-later (a + 1) n)
    | inr miss ↦ ground (arith, own-kept (a + 1) n)
  ]
