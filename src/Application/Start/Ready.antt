-- ===== src/Application/Start/Ready.antt =====
-- What Application.cpp has started when its constructor returns, and that `main` of main.cpp ends.
use footscreen.Base.{
  ℕ, ◌+◌, ◌≤◌, ◌<◌, ◌≡◌, refl, ap, ◌∙◌, Bool, true, false, none, some, [], ◌++◌, if◌then◌else◌,
}
use footscreen.Floats.{Floats}
use footscreen.MessageData.{message_id_first, id_first_client}
use footscreen.Framework.{fault, thrown, done, ◌then◌, of_option, DepthCameraException}
use footscreen.Game.{Game}
use footscreen.Game.Level.{Memory, layout_of, level_default}
use footscreen.Game.Level.Registration.{count_up, owned}
use footscreen.Server.{GameNetworkServer, run}
use footscreen.GameServer.Callbacks.{Callback, initialize_message_handlers, run_game_server}
use footscreen.GameServer.Loading.{load_game, destroy_game}
use footscreen.GameServer.Loading.Loaded.{
  objects_in, IsLoaded, IsPlaced, running, load_game-IsLoaded,
}
use footscreen.GameServer.Loading.Reloading.{game_handlers, initialize-append}
use footscreen.Application.{Application}
use footscreen.GameServer.Loading.{game_callbacks}
use footscreen.Application.Start.{Garbage, Started, started, new_application, uist_level}

-- The network of a server that has just been run, but for its handlers.
abbrev pub fresh : GameNetworkServer Callback
fresh = record { message_handlers = []; next_player_id = id_first_client; player_profiles = [] }

module _ {F D I M W G N : Type 0} (f : Floats F D) (memory : Memory F Callback)
    (garbage : Garbage D I M N) where
  -- The constructor of the program, where the addresses of the two texts are the same and the counter of
  -- IDs does not wrap around: if the camera is made, the server runs, and the units and obstacles of its game
  -- stand where the first level has them; its handlers are those of requests, those of the game and one for each object; the wizard has not
  -- terminated; and the client's thread waits with the address of the server. If making the camera
  -- throws, so does the constructor. If the addresses differ, a null pointer is followed.
  pub new_application-ready :
      (next : ℕ)
      → message_id_first ≤ next
      → next + objects_in uist_level < 65536
      → ((w : W)
          → (p : Started F D I M W G N) × (g : Game F D) × (new_application f memory garbage
                (done w)
                true
                next
              ≡ done p)
            × (p.application.game_server
                ≡ some (
                    running f memory fresh
                      ((initialize_message_handlers [] ++ game_handlers game_callbacks)
                        ++ owned f memory (count_up next (objects_in uist_level)))
                      (some g)))
            × IsLoaded uist_level next g
            × IsPlaced f level_default g
            × (p.next_message_id ≡ next + objects_in uist_level)
            × (p.application.is_finished ≡ false)
            × (p.application.calibration.has_terminated ≡ false)
            × (p.client_thread.serving ≡ false)
            × (p.client_thread.client.server_address ≡ true))
        × ((e : DepthCameraException) (same : Bool)
            → new_application {W = W} {G = G} f memory garbage (thrown e) same next ≡ thrown e)
        × ((w : W) → new_application {G = G} f memory garbage (done w) false next ≡ fault)
  unfolding new_application started ◌then◌ run_game_server run destroy_game layout_of
  new_application-ready next low high =
      let (g, loaded, at, e) =
        load_game-IsLoaded f memory game_callbacks uist_level fresh (initialize_message_handlers [])
          none next low high in
      let server =
        running f memory fresh
          ((initialize_message_handlers [] ++ game_handlers game_callbacks)
            ++ owned f memory (count_up next (objects_in uist_level)))
          (some g) in
      let loads : load_game f memory game_callbacks uist_level
            (run_game_server (record { game_network_server = none; game = none })) next
          ≡ some (server, next + objects_in uist_level) =
        e
        ∙ ap
            (λ hs. some (
              running f memory fresh (hs ++ owned f memory (count_up next (objects_in uist_level)))
                  (some g),
              next + objects_in uist_level,
            ))
            (initialize-append game_callbacks (initialize_message_handlers [])) in
      (
        (λ w. (
          started f memory garbage w server (next + objects_in uist_level),
          g,
          ap
              (λ o.
                of_option o then λ (server, next'). done (started f memory garbage w server next'))
              loads,
          refl,
          loaded,
          at,
          refl,
          refl,
          refl,
          refl,
          refl,
        )),
        (λ e same. refl),
        (λ w. refl),
      )
