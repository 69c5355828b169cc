-- ===== src/Listener/Freeing.antt =====
-- Every session of uist-game/NetworkServer.cpp but the one that waits is freed exactly once.
use footscreen.Base.{
  ℕ, suc, ◌+◌, ◌≡◌, refl, ap, ◌∙◌, Bool, true, false, ◌&&◌, some, List, [], ◌∷◌, ◌++◌, map, length,
  ltb, leb, ◌==◌, if◌then◌else◌, arith,
}
use footscreen.Listener.{
  Call, async_accept, start_session, session_accepted, free_session, post_release, stop_service,
  NetworkServer, new_network_server, run_server, handle_accept, handle_accepts, release,
}

-- How often a session is freed, and how often it stands in a list.
abbrev pub one_if : Bool → ℕ
one_if b = if b then 1 else 0

abbrev pub frees : ℕ → List Call → ℕ
frees k [] = 0
frees k (free_session s ∷ calls) = one_if (s == k) + frees k calls
frees k (async_accept s ∷ calls) = frees k calls
frees k (start_session s ∷ calls) = frees k calls
frees k (session_accepted s ∷ calls) = frees k calls
frees k (post_release ∷ calls) = frees k calls
frees k (stop_service ∷ calls) = frees k calls

abbrev count : ℕ → List ℕ → ℕ
count k [] = 0
count k (s ∷ ss) = one_if (s == k) + count k ss

frees-append : (k : ℕ) (xs ys : List Call) → frees k (xs ++ ys) ≡ frees k xs + frees k ys
frees-append k [] ys = omega arith
frees-append k (free_session s ∷ xs) ys = omega (arith, frees-append k xs ys)
frees-append k (async_accept s ∷ xs) ys = frees-append k xs ys
frees-append k (start_session s ∷ xs) ys = frees-append k xs ys
frees-append k (session_accepted s ∷ xs) ys = frees-append k xs ys
frees-append k (post_release ∷ xs) ys = frees-append k xs ys
frees-append k (stop_service ∷ xs) ys = frees-append k xs ys

frees-map : (k : ℕ) (ss : List ℕ) → frees k (map free_session ss) ≡ count k ss
frees-map k [] = refl
frees-map k (s ∷ ss) = omega (arith, frees-map k ss)

count-append : (k : ℕ) (xs : List ℕ) (s : ℕ) → count k (xs ++ s ∷ []) ≡ count k xs + one_if (s == k)
count-append k [] s = omega arith
count-append k (x ∷ xs) s = omega (arith, count-append k xs s)

interval :
    (k a n : ℕ)
    → one_if (a == k) + one_if (leb (a + 1) k && ltb k (a + 1 + n))
      ≡ one_if (leb a k && ltb k (a + suc n))
interval k a n = ground arith

-- What is freed and what is kept, of the sessions from some address on.
handle_accepts-frees :
    (es : List Bool) (k session : ℕ) (s : NetworkServer)
    → let (t, calls) = handle_accepts es session s in
      frees k calls + count k t.sessions
      ≡ count k s.sessions + one_if (leb session k && ltb k (session + length es))
unfolding handle_accepts handle_accept
handle_accepts-frees [] k session s = ground arith
handle_accepts-frees (true ∷ es) k session s = omega (
  arith,
  handle_accepts-frees es k (session + 1) (record s { waiting = some (session + 1) }),
  interval k session (length es),
)
handle_accepts-frees (false ∷ es) k session s =
    let kept : List ℕ = s.sessions ++ session ∷ [] in
    omega (
      arith,
      handle_accepts-frees es k (session + 1)
          (record s { sessions = kept; waiting = some (session + 1) }),
      interval k session (length es),
      count-append k s.sessions session,
    )

handle_accepts-waiting :
    (es : List Bool) (session : ℕ) (s : NetworkServer)
    → s.waiting ≡ some session
    → (handle_accepts es session s).0.waiting ≡ some (session + length es)
unfolding handle_accepts handle_accept
handle_accepts-waiting [] session s e = e ∙ ap some (omega arith)
handle_accepts-waiting (true ∷ es) session s e =
    handle_accepts-waiting es (session + 1) (record s { waiting = some (session + 1) }) refl
    ∙ ap some (omega arith)
handle_accepts-waiting (false ∷ es) session s e =
    handle_accepts-waiting es (session + 1)
      (record s { sessions = s.sessions ++ session ∷ []; waiting = some (session + 1) }) refl
    ∙ ap some (omega arith)

-- From the start of the network server to its release, whichever accepts succeed in between: each
-- session that was accepted or refused is freed exactly once, and no other address; the session that
-- waits at the end, which is the next one, is never freed.
pub release-handle_accepts-frees :
    (es : List Bool) (first : ℕ)
    → let (s, started) = run_server first new_network_server in
      let (t, accepted) = handle_accepts es first s in
      let (u, released) = release t in
      ((k : ℕ)
        → frees k (started ++ (accepted ++ released))
          ≡ one_if (leb first k && ltb k (first + length es)))
      × (t.waiting ≡ some (first + length es))
unfolding run_server new_network_server release
release-handle_accepts-frees es first =
    let s = (run_server first new_network_server).0 in
    let t = (handle_accepts es first s).0 in
    (
      (λ k. omega (
        arith,
        frees-append k (handle_accepts es first s).1 (stop_service ∷ map free_session t.sessions),
        frees-map k t.sessions,
        handle_accepts-frees es k first s,
      )),
      handle_accepts-waiting es first s refl,
    )
