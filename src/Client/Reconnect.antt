-- ===== src/Client/Reconnect.antt =====
-- `connect`, and the single loop that serves every request to connect again.
pub mod Flight
use getty.Common.{
  ℕ, zero, suc, ◌+◌, ◌-◌, ◌<◌, ◌≡◌, Bool, true, false, not, Option, none, some, if◌then◌else◌,
}
use getty.Session.Lifecycle.{System}
use getty.Session.Lifecycle
use getty.Client.Pool.{Client, World, update_session, own, session_num, admit}
use getty.Client.Pool

-- A session that `dial` made, at an address of its own, and what the callback said of it.
pub record Dialed : Type 0 where
  pub address : ℕ
  pub session : System
  pub accepted : Bool

-- `connect` up to the critical section: the attributes are set before the session runs.
unfoldable pub start_session : Dialed → World → World
unfolding own Lifecycle.begin_run
start_session d w =
    update_session d.address (λ s. Lifecycle.begin_run (own w.client.id d.session)) w

-- `connect`. The first argument is what other goroutines do between `run` and the critical section. A
-- session that the callback refuses is only closed below, and no part of the client changes.
unfoldable pub connect : (World → World) → Option Dialed → World → World × Bool
connect others none w = (w, false)
connect others (some d) w =
    if d.accepted then admit d.address (others (start_session d w)) else (w, false)

-- The client with its goroutines of `runReconnect`: those before the critical section of their loop,
-- and those that run `reConnect`.
pub record State : Type 0 where
  pub world : World
  pub at_top : ℕ
  pub in_pass : ℕ

abbrev pub set_client : Client → State → State
set_client c t = record t { world = record (t.world) { client = c } }

-- `runReconnect`. It says whether it started a loop.
unfoldable pub run_reconnect : State → State × Bool
run_reconnect t =
    let c = t.world.client in
    if c.done
    then (t, false)
    else if c.reconnect_done
    then (set_client (record c { reconnect_pending = true }) t, false)
    else (
      record (set_client (record c { reconnect_done = true; reconnect_pending = true }) t) {
        at_top = t.at_top + 1;
      },
      true,
    )

-- The critical section of the loop: it ends, or clears the request and makes a pass.
unfoldable pub turn : State → State
turn t =
    let c = t.world.client in
    if c.done
    then (record (set_client (record c { reconnect_done = false; reconnect_pending = false }) t) {
      at_top = t.at_top - 1;
    })
    else if c.reconnect_pending
    then (record (set_client (record c { reconnect_pending = false }) t) {
      at_top = t.at_top - 1;
      in_pass = t.in_pass + 1;
    })
    else (record (set_client (record c { reconnect_done = false }) t) { at_top = t.at_top - 1 })

-- `reConnect` returns.
unfoldable pub end_pass : State → State
end_pass t = record t { at_top = t.at_top + 1; in_pass = t.in_pass - 1 }

unfoldable pub close : State → State
close t = record t { world = Pool.stop t.world }

-- One critical section of some goroutine. The steps of a session leave the client alone: a session that
-- asks for another connection does so by `triggers`.
pub data Step : State → State → Type 0 where
  triggers : (t : State) → Step t (run_reconnect t).0
  turns : (t : State) → 0 < t.at_top → Step t (turn t)
  counts : (t : State) → 0 < t.in_pass → Step t (record t { world = (session_num t.world).0 })
  starts :
      (t : State) (d : Dialed)
      → 0 < t.in_pass
      → Step t (record t { world = start_session d t.world })
  admits : (t : State) (a : ℕ) → 0 < t.in_pass → Step t (record t { world = (admit a t.world).0 })
  ends_pass : (t : State) → 0 < t.in_pass → Step t (end_pass t)
  session_runs :
      (t : State) (a : ℕ) (s : System)
      → Lifecycle.Step (t.world.sessions a) s
      → Step t (record t { world = update_session a (λ _. s) t.world })
  closes : (t : State) → Step t (close t)

abbrev pub init_state : Client → (ℕ → System) → State
init_state c ss = record { world = record { client = c; sessions = ss }; at_top = 0; in_pass = 0 }

pub data Reach (t : State) : State → Type 0 where
  here : Reach t t
  next : {u v : State} → Reach t u → Step u v → Reach t v
