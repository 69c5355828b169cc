-- ===== src/Client/Running/Served.antt =====
-- What a handler of the client finds when the service runs it.
use mathlib.Core.Path.{subst}
use mathlib.Core.Option.{some-injective}
use footscreen.Base.{
  ap, Bool-cases, inl, inr, >>=-eq-some, ◌≡◌, refl, sym, ◌∙◌, Bool, true, false, some, List, ◌∷◌,
  [], ◌++◌, arith, ℕ,
}
use footscreen.MessageData.{MessageData, HeaderLayout}
use footscreen.Actions.{
  Action, async_read, async_write, async_connect, post_unload, post_deliver, read_header, read_body,
}
use footscreen.Client.{
  load, NetworkClient, handle_connect, handle_read_header, handle_read_body, handle_write, deliver,
  pop_front, connect_to_server, start_accept, stop,
}
use footscreen.Client.Running.{
  clear_address, Thread, perform, act, begin_turn, finish_turn, serve, do_work, stops_service, Step,
  connects, stops, reconnects, sends, run_as_game, is_work, begins, serves, finishes, Reach, here,
  next,
}

-- The service and the socket are set while the service runs.
pub record IsServed (t : Thread) : Type 0 where
  pub service : t.serving ≡ true → t.stopped ≡ false → t.client.io_service ≡ true
  pub socket : t.serving ≡ true → t.stopped ≡ false → t.client.socket ≡ true

-- The parts of the thread that `perform` leaves.
perform-kept :
    (actions : List Action) (t : Thread)
    → ((perform actions t).client ≡ t.client)
      × ((perform actions t).serving ≡ t.serving)
      × ((perform actions t).stopped ≡ t.stopped)
unfolding perform
perform-kept [] t = (refl, refl, refl)
perform-kept (a ∷ actions) t = elim (Bool-cases (is_work a)) [
  | inl work ↦
      rw (work, perform) (perform-kept actions (record t { pending = t.pending ++ a ∷ [] }))
  | inr signal ↦
      rw (signal, perform) (perform-kept actions (record t { signals = t.signals ++ a ∷ [] }))
]

act-IsServed :
    (out : NetworkClient × List Action) (t : Thread)
    → (t.serving ≡ true → t.stopped ≡ false → (out.0.io_service ≡ true) × (out.0.socket ≡ true))
    → IsServed (act out t)
unfolding act
act-IsServed out t set =
    let (client, serving, stopped) = perform-kept out.1 (record t { client = out.0 }) in
    let both =
      λ (on : (perform out.1 (record t { client = out.0 })).serving ≡ true)
          (go : (perform out.1 (record t { client = out.0 })).stopped ≡ false).
        set (sym serving ∙ on) (sym stopped ∙ go) in
    record {
      service = λ on go. ap (λ c. c.io_service) client ∙ (both on go).0;
      socket = λ on go. ap (λ c. c.socket) client ∙ (both on go).1;
    }

-- Only `unload` takes the service and the socket away.
module _ (l : HeaderLayout) where
  do_work-kept :
      (a : Action) (bytes : List ℕ) (failed : Bool) (c : NetworkClient)
      (out : NetworkClient × List Action)
      → stops_service a ≡ false
      → do_work l a bytes failed c ≡ some out
      → (out.0.io_service ≡ c.io_service) × (out.0.socket ≡ c.socket)
  unfolding do_work stops_service handle_connect handle_read_header handle_read_body handle_write
      pop_front deliver
  do_work-kept async_connect bytes true c out keeps e = ground arith
  do_work-kept async_connect bytes false c out keeps e = ground arith
  do_work-kept (async_read n read_header) bytes true c out keeps e = ground arith
  do_work-kept (async_read n read_header) bytes false c out keeps e = ground arith
  do_work-kept (async_read n read_body) bytes true c out keeps e = ground arith
  do_work-kept (async_read n read_body) bytes false c out keeps e = ground arith
  do_work-kept (async_write m n) bytes true c out keeps e = ground arith
  do_work-kept (async_write m n) bytes false c out keeps e = ground arith
  do_work-kept (post_unload unloads) bytes failed c out keeps e = absurd (cc)
  do_work-kept (post_deliver m) bytes failed c out keeps e = ground arith
  do_work-kept _ bytes failed c out keeps e = absurd (cc)

  serve-IsServed :
      (a : Action) (bytes : List ℕ) (failed : Bool) (left : List Action) (t u : Thread)
      → IsServed t
      → t.serving ≡ true
      → t.stopped ≡ false
      → serve l a bytes failed left t ≡ some u
      → IsServed u
  unfolding serve
  serve-IsServed a bytes failed left t u v on go e =
      let (out, done, made) = >>=-eq-some (do_work l a bytes failed t.client) _ e in
      subst IsServed (some-injective _ _ made) (
        act-IsServed out (record t { pending = left; stopped = stops_service a })
          (λ on' go'.
            let (service, socket) = do_work-kept a bytes failed t.client out go' done in
            (service ∙ v.service on go, socket ∙ v.socket on go)))

  begin_turn-IsServed :
      (resolved : Bool) (t u : Thread)
      → t.serving ≡ false
      → begin_turn resolved t ≡ some u
      → IsServed u
  unfolding begin_turn load start_accept clear_address
  begin_turn-IsServed true t u off e = subst IsServed (some-injective _ _ e) (
      act-IsServed (load t.client, async_connect ∷ [])
        (record t { serving = true; stopped = false; pending = [] }) (λ on go. (refl, refl)))
  begin_turn-IsServed false t u off e =
      let made = some-injective _ _ e in
      record { service = λ on. ground arith; socket = λ on. ground arith }

  Step-IsServed : {addressed : Bool} {t u : Thread} → Step l addressed t u → IsServed t → IsServed u
  unfolding connect_to_server finish_turn stop start_accept perform act
  Step-IsServed (connects called off) v = record {
    service = λ on. absurd (cc);
    socket = λ on. absurd (cc);
  }
  Step-IsServed {t} stops v =
      act-IsServed (stop false t.client) t (λ on go. (v.service on go, v.socket on go))
  Step-IsServed {t} (reconnects out e) v =
      act-IsServed out t
        (λ on go. let x = v.service on go in let y = v.socket on go in ground arith)
  Step-IsServed {t} (sends m actions on e) v =
      act-IsServed (t.client, actions) t (λ on go. (v.service on go, v.socket on go))
  Step-IsServed {t} (begins resolved u off known e) v = begin_turn-IsServed resolved t u off e
  Step-IsServed {t} (serves a before after bytes failed u on go e out) v =
      serve-IsServed a bytes failed (before ++ after) t u v on go out
  Step-IsServed (finishes on done) v = record {
    service = λ off. absurd (cc);
    socket = λ off. absurd (cc);
  }

  Reach-IsServed :
      {addressed : Bool} {t u : Thread} → IsServed t → Reach l addressed t u → IsServed u
  Reach-IsServed v here = v
  Reach-IsServed v (next r st) = Step-IsServed st (Reach-IsServed v r)

  -- Whatever the thread has done since the program started it, in whatever order its work was done and
  -- whatever the other threads have called meanwhile: when the service does a piece of work, the service
  -- and the socket that its handler uses are set.
  pub Reach-run_as_game :
      (bytes : List ℕ) (message : MessageData) {t : Thread}
      → Reach l true (run_as_game bytes message) t
      → t.serving ≡ true
      → t.stopped ≡ false
      → (t.client.io_service ≡ true) × (t.client.socket ≡ true)
  unfolding run_as_game
  Reach-run_as_game bytes message r on go =
      let v =
        Reach-IsServed (record { service = λ off. absurd (cc); socket = λ off. absurd (cc) }) r in
      (v.service on go, v.socket on go)
