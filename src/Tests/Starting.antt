-- ===== src/Tests/Starting.antt =====
-- The start of the program with a camera that is a number, and its end by a key.
use footscreen.Base.{ℕ, ◌+◌, ◌≡◌, true, false, some, List, [], ◌++◌, Bool, arith}
use footscreen.Base.Int.{ℤ, pos}
use footscreen.Following.Closest.{Order}
use footscreen.Framework.{fault, thrown, done, DepthCameraException, could_not_initialize_context}
use footscreen.Game.{Game}
use footscreen.Game.Level.{Memory, layout_of, level_default}
use footscreen.Game.Level.Registration.{count_up, owned}
use footscreen.GameServer.Callbacks.{Callback, updates, initialize_message_handlers}
use footscreen.GameServer.Loading.Loaded.{objects_in, IsLoaded, IsPlaced, running}
use footscreen.GameServer.Loading.Reloading.{game_handlers}
use footscreen.GameServer.Loading.{game_callbacks}
use footscreen.Application.Start.{Garbage, Started, new_application, uist_level}
use footscreen.Application.Start.Ready.{fresh, new_application-ready}
use footscreen.Tests.Data.{whole_numbers, buffer, sample}
use footscreen.Tests.Requests.{unit_region, obstacle_region, unit_garbage, obstacle_garbage}

abbrev memory : Memory ℤ Callback
memory = record {
  unit_region = unit_region;
  obstacle_region = obstacle_region;
  unit_garbage = unit_garbage;
  obstacle_garbage = obstacle_garbage;
  hunting = true;
  update_of = updates;
}

abbrev garbage : Garbage ℤ ℕ ℕ (List (Order ℤ))
garbage = record {
  bgr_image = 0;
  depth_image = 0;
  calibration_image = 0;
  output_image = 0;
  game_image = 0;
  is_touch_calibrated = true;
  ground_value = pos 7;
  empty_matrix = 0;
  network = [];
  read_buffer = buffer;
  current_message = sample;
}

abbrev no_context : DepthCameraException
no_context = record { description = could_not_initialize_context; status = 9 }

abbrev Program : Type 0
Program = Started ℤ ℤ ℕ ℕ ℕ ℕ (List (Order ℤ))

new_application-ready_example :
    ((w : ℕ)
      → (p : Program) × (g : Game ℤ ℤ) × (new_application whole_numbers memory garbage
            (done w)
            true
            3
          ≡ done p)
        × (p.application.game_server
            ≡ some (
                running whole_numbers memory fresh
                  ((initialize_message_handlers [] ++ game_handlers game_callbacks)
                    ++ owned whole_numbers memory (count_up 3 (objects_in uist_level)))
                  (some g)))
        × IsLoaded uist_level 3 g
        × IsPlaced whole_numbers level_default g
        × (p.next_message_id ≡ 3 + objects_in uist_level)
        × (p.application.is_finished ≡ false)
        × (p.application.calibration.has_terminated ≡ false)
        × (p.client_thread.serving ≡ false)
        × (p.client_thread.client.server_address ≡ true))
    × ((e : DepthCameraException) (same : Bool)
        → new_application {W = ℕ} {G = ℕ} whole_numbers memory garbage (thrown e) same 3 ≡ thrown e)
    × ((w : ℕ) → new_application {G = ℕ} whole_numbers memory garbage (done w) false 3 ≡ fault)
unfolding layout_of
new_application-ready_example =
    new_application-ready whole_numbers memory garbage 3 (omega arith) (omega arith)
