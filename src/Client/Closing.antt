-- ===== src/Client/Closing.antt =====
-- What `NetworkClient::unload` signals, and what a closed client is.
use footscreen.Base.{◌≡◌, refl, Bool, false, List, [], ◌∷◌, arith, if◌then◌else◌}
use footscreen.Actions.{Action, logs, connection_closed, connection_failed}
use footscreen.Client.{NetworkClient, unload, stop, accepts_connection}

-- The actions that are not lines of the log.
abbrev pub signals : List Action → List Action
signals [] = []
signals (logs level ∷ rest) = signals rest
signals (a ∷ rest) = a ∷ signals rest

-- Unloading leaves the client closed, so that stopping it again only signals the end; it signals the
-- end once, but a failed connection signals it before and after the failure, hence twice.
pub unload-signals :
    (refused failed : Bool) (c : NetworkClient)
    → let (c', actions) = unload refused failed c in
      (c'.is_connected ≡ false)
      × (accepts_connection c' ≡ false)
      × ((again : Bool) → (stop again c').1 ≡ connection_closed ∷ [])
      × (signals actions ≡ (
          if failed
          then connection_closed ∷ connection_failed ∷ connection_closed ∷ []
          else connection_closed ∷ []))
unfolding unload stop accepts_connection
unload-signals refused failed c = (refl, refl, λ again. refl, ground arith)
