-- ===== src/Client/Running.antt =====
-- `NetworkClient::run` of uist-game/NetworkClient.cpp: the client's own thread, and the calls that
-- other threads make meanwhile. A turn holds `m_waitForConnectionMutex` while it lasts, so that
-- `connectToServer` waits for its end. What is asked of the network service waits in `pending`, and is
-- done in any order; a service that has been stopped does nothing more.
pub mod Served
pub mod Unresolved
pub mod Lost
use footscreen.Base.{
  ℕ, ◌≡◌, Bool, true, false, Option, none, some, List, [], ◌∷◌, ◌++◌, ◌>>=◌, ◌⊎◌, if◌then◌else◌,
}
use footscreen.MessageData.{MessageData, HeaderLayout}
use footscreen.Actions.{
  Action, error, logs, async_read, async_write, async_connect, message_received, closed,
  connection_established, connection_closed, connection_failed, post_unload, post_deliver,
  read_header, read_body,
}
use footscreen.Framework.{done}
use footscreen.Client.{
  NetworkClient, new_network_client, connect_to_server, load, start_accept, stop, unload, send,
  handle_connect, handle_read_header, handle_read_body, deliver, handle_write,
}

-- `serving` says that the thread is inside `m_ioService->run()`, and `stopped` that the service has
-- been stopped. `signals` holds what was signalled and logged, in order.
pub record Thread : Type 0 where
  pub client : NetworkClient
  pub serving : Bool
  pub stopped : Bool
  pub pending : List Action
  pub signals : List Action

-- `GameNetworkClient::run`: a new client, whose thread waits for an address.
unfoldable pub run_as_game : List ℕ → MessageData → Thread
unfolding new_network_client
run_as_game bytes message = record {
  client = new_network_client bytes message;
  serving = false;
  stopped = false;
  pending = [];
  signals = [];
}

-- What the service has to do; the rest happens at once.
abbrev pub is_work : Action → Bool
is_work (logs level) = false
is_work (async_read n phase) = true
is_work (async_write m n) = true
is_work async_connect = true
is_work (message_received m) = false
is_work closed = false
is_work connection_established = false
is_work connection_closed = false
is_work connection_failed = false
is_work (post_unload failed) = true
is_work (post_deliver m) = true

unfoldable pub perform : List Action → Thread → Thread
perform [] t = t
perform (a ∷ rest) t = perform rest (
    if is_work a
    then record t { pending = t.pending ++ a ∷ [] }
    else record t { signals = t.signals ++ a ∷ [] })

unfoldable pub act : NetworkClient × List Action → Thread → Thread
unfolding perform
act (c, actions) t = perform actions (record t { client = c })

-- `load`, where the address does not resolve: the exception leaves it before the socket is made.
unfoldable pub load_unresolved : NetworkClient → NetworkClient
load_unresolved c = record c { io_service = true }

unfoldable pub clear_address : Thread → Thread
clear_address t = record t { client = record t.client { server_address = false } }

-- The part of a turn before `m_ioService->run()`, and all of it if the address does not resolve. The
-- service is a new one; `none` is a null socket that is followed.
unfoldable pub begin_turn : Bool → Thread → Option Thread
unfolding load start_accept act stop load_unresolved clear_address
begin_turn true t = start_accept (load t.client) >>= λ out.
    some (act out (record t { serving = true; stopped = false; pending = [] }))
begin_turn false t =
    let caught = record t {
      client = load_unresolved t.client;
      pending = [];
      signals = t.signals ++ logs error ∷ [];
    } in
    some (clear_address (act (stop true caught.client) caught))

-- The part of a turn after `m_ioService->run()`; the service goes, with what it had to do.
unfoldable pub finish_turn : Thread → Thread
unfolding clear_address
finish_turn t =
    clear_address
      (record t { client = record t.client { io_service = false }; serving = false; pending = [] })

unfoldable pub stops_service : Action → Bool
stops_service (post_unload failed) = true
stops_service _ = false

module _ (l : HeaderLayout) where
  -- The handler of a piece of work. `bytes` is what was read, and `failed` that the operation failed,
  -- or for `unload` that the socket could not be shut down.
  unfoldable pub do_work :
      Action → List ℕ → Bool → NetworkClient → Option (NetworkClient × List Action)
  unfolding handle_connect handle_read_header handle_read_body handle_write unload deliver
  do_work async_connect bytes failed c = some (handle_connect l failed c)
  do_work (async_read n read_header) bytes failed c =
      handle_read_header l failed (record c { read_buffer = bytes })
  do_work (async_read n read_body) bytes failed c =
      handle_read_body l failed (record c { read_buffer = bytes })
  do_work (async_write m n) bytes failed c = handle_write l failed c
  do_work (post_unload unloads) bytes failed c = some (unload failed unloads c)
  do_work (post_deliver m) bytes failed c = some (deliver l m c)
  do_work _ bytes failed c = none

  -- The service does one of the things that it has to do.
  unfoldable pub serve : Action → List ℕ → Bool → List Action → Thread → Option Thread
  unfolding do_work act stops_service
  serve a bytes failed left t = do_work a bytes failed t.client >>= λ out.
      some (act out (record t { pending = left; stopped = stops_service a }))

-- The steps of the thread and the calls of the others; `addressed` says that `connectToServer` is
-- among these.
pub data Step (l : HeaderLayout) (addressed : Bool) (t : Thread) : Thread → Type 0 where
  connects :
      addressed ≡ true
      → t.serving ≡ false
      → Step l addressed t (record t { client = connect_to_server t.client })
  stops : Step l addressed t (act (stop false t.client) t)
  reconnects :
      (out : NetworkClient × List Action)
      → start_accept t.client ≡ some out
      → Step l addressed t (act out t)
  sends :
      (m : MessageData) (actions : List Action)
      → t.client.is_connected ≡ true
      → send m (t.client ∷ []) ≡ done actions
      → Step l addressed t (perform actions t)
  begins :
      (resolved : Bool) (u : Thread)
      → t.serving ≡ false
      → t.client.server_address ≡ true
      → begin_turn resolved t ≡ some u
      → Step l addressed t u
  serves :
      (a : Action) (before after : List Action) (bytes : List ℕ) (failed : Bool) (u : Thread)
      → t.serving ≡ true
      → t.stopped ≡ false
      → t.pending ≡ before ++ a ∷ after
      → serve l a bytes failed (before ++ after) t ≡ some u
      → Step l addressed t u
  finishes :
      t.serving ≡ true → (t.stopped ≡ true) ⊎ (t.pending ≡ []) → Step l addressed t (finish_turn t)

pub data Reach (l : HeaderLayout) (addressed : Bool) (t : Thread) : Thread → Type 0 where
  here : Reach l addressed t t
  next : {u v : Thread} → Reach l addressed t u → Step l addressed u v → Reach l addressed t v
