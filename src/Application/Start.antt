-- ===== src/Application/Start.antt =====
-- The constructor of Application.cpp, and `main` of main.cpp: how the program starts its server, its
-- client and the wizard, and how it ends.
pub mod Ready
use footscreen.Base.{ℕ, Bool, true, false, Option, none, some, List, [], if◌then◌else◌}
use footscreen.Floats.{Floats}
use footscreen.MessageData.{MessageData}
use footscreen.Calibration.{Calibration, restart}
use footscreen.Client.{connect_to_server}
use footscreen.Client.Running.{Thread, run_as_game}
use footscreen.Framework.{
  Result, fault, waits, thrown, done, ◌then◌, of_option, DepthCameraException,
}
use footscreen.Game.{new_game}
use footscreen.Game.Level.{Memory}
use footscreen.GameServer.{GameServer}
use footscreen.GameServer.Callbacks.{Callback, run_game_server}
use footscreen.GameServer.Loading.{game_callbacks, load_game}
use footscreen.Application.{Application}

abbrev pub uist_level : ℕ
uist_level = 1

-- What memory holds of the members that are not set, and the new images.
pub record Garbage (D I M N : Type 0) : Type 0 where
  pub bgr_image : I
  pub depth_image : I
  pub calibration_image : I
  pub output_image : I
  pub game_image : I
  pub is_touch_calibrated : Bool
  pub ground_value : D
  pub empty_matrix : M
  pub network : N
  pub read_buffer : List ℕ
  pub current_message : MessageData

unfoldable pub new_calibration : {P M : Type 0} → M → Calibration P M
unfolding restart
new_calibration empty = restart (record {
  has_terminated = true;
  is_projector_calibrated = true;
  number_of_projector_coordinates = 0;
  projector_coordinates = [];
  is_camera_calibrated = true;
  number_of_camera_coordinates = 0;
  camera_coordinates = [];
  physical_to_projector = empty;
  projector_to_physical = empty;
  physical_to_camera = empty;
  camera_to_physical = empty;
})

-- The program after its start: also the client's thread, and the counter of message IDs.
pub record Started (F D I M W G N : Type 0) : Type 0 where
  pub application : Application F D I M W G Callback N
  pub client_thread : Thread
  pub next_message_id : ℕ

-- `main`: it runs on, it waits for ever, it crashes, or it returns a success or a failure.
pub data Outcome : Type 0 where
  runs blocks crashes returns_success returns_failure : Outcome

-- How `main` ends, by the state that its loop leaves. After an exception it waits for Enter, and `enter`
-- says that it is pressed.
unfoldable pub outcome :
    {F D I M W G N : Type 0} → Bool → Result (Application F D I M W G Callback N × List ℕ) → Outcome
outcome enter fault = crashes
outcome enter waits = blocks
outcome enter (thrown e) = if enter then returns_failure else blocks
outcome enter (done (a, keys)) = if a.is_finished then returns_success else runs

module _ {F D I M W G N : Type 0} (f : Floats F D) (memory : Memory F Callback)
    (garbage : Garbage D I M N) where
  -- The members when the constructor returns, for its camera, its server and the counter of IDs.
  unfoldable pub started : W → GameServer F D Callback → ℕ → Started F D I M W G N
  unfolding new_calibration new_game run_as_game connect_to_server
  started w server next =
      let thread = run_as_game garbage.read_buffer garbage.current_message in
      record {
        application = record {
          is_finished = false;
          touch = record {
            depth_camera = some w;
            bgr_image = garbage.bgr_image;
            depth_image = garbage.depth_image;
            calibration_image = garbage.calibration_image;
            is_touch_calibrated = garbage.is_touch_calibrated;
            is_touching = false;
            ground_value = garbage.ground_value;
          };
          output_image = garbage.output_image;
          game_image = garbage.game_image;
          calibration = new_calibration garbage.empty_matrix;
          game_client = some (new_game f);
          game_server = some server;
          skeleton_tracker = none;
          network = garbage.network;
          screenshots = none;
        };
        client_thread = record thread { client = connect_to_server thread.client };
        next_message_id = next;
      }

  -- `camera` is `new DepthCamera`. `same` says that the two texts "127.0.0.1" are one object, since
  -- their addresses are compared: otherwise `m_gameClient` is null when it is run. `next` is the static
  -- counter of message IDs.
  unfoldable pub new_application : Result W → Bool → ℕ → Result (Started F D I M W G N)
  unfolding started run_game_server load_game
  new_application camera same next = camera then λ w.
      if same
      then (of_option (
            load_game f memory game_callbacks uist_level
              (run_game_server (record { game_network_server = none; game = none })) next)
          then λ (server, next'). done (started w server next'))
      else fault

  -- `run` is the loop of `main`, with the state and the keys that are left at its end. `enter` is as
  -- for `outcome`.
  unfoldable pub main :
      (Application F D I M W G Callback N → Result (Application F D I M W G Callback N × List ℕ))
      → Result W
      → Bool
      → ℕ
      → Bool
      → Outcome
  unfolding new_application outcome
  main run camera same next enter =
      outcome enter (new_application camera same next then λ s. run s.application)
