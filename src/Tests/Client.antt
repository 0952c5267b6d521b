-- ===== src/Tests/Client.antt =====
-- Clients, their pools, and passes of the reconnect loop.
use getty.Common.{
  ℕ, ◌+◌, ◌≡◌, ◌<◌, ◌≤◌, ◌⊎◌, refl, true, false, some, List, [], ◌∷◌, pos, is_some, ◌-◌,
  if◌then◌else◌, ◌==◌, arith,
}
use getty.Options.{
  ClientOption, with_server_address, with_connection_number, with_reconnect_attempts,
}
use getty.Connection.Conn.{tcp}
use getty.Session.Lifecycle.{System, init_system}
use getty.Client.Pool.{session_num, prune, Client, World, new_client, init, admit, stop}
use getty.Client.Pool.Admission.{IsSettled, Settled, admit-settles}
use getty.Client.Pool.Stop.{Emptied, stop_lem}
use getty.Client.Reconnect.{
  State, Reach, here, next, init_state, run_reconnect, turn, close, closes, triggers, turns,
}
use getty.Client.Reconnect.Flight.{
  Flight, Reach-Flight, request_kept, no_loop_starts, IsPending, IsClosed, PassStarted,
}
use getty.Client.Backoff.{is_full, interval, Env, max_attempts, reconnect}
use getty.Client.Backoff.Attempts.{budget, reconnect-ends}
use getty.Client.Backoff.Down.{ended, waits_from, reconnect-down}
use getty.Tests.Fixtures.{end_point, tcp_conn}

abbrev opts : List ClientOption
opts =
    with_server_address "127.0.0.1:1000"
    ∷ with_connection_number (pos 1)
    ∷ with_reconnect_attempts (pos 3)
    ∷ []

abbrev client : Client
client = record {
  id = 1;
  opts = init opts;
  ss_map = some [];
  reconnect_done = false;
  reconnect_pending = false;
  done = false;
  once = false;
}

new_client_client : new_client 2 opts 1 ≡ some client
unfolding new_client init with_server_address with_connection_number with_reconnect_attempts
new_client_client = refl

abbrev sessions : ℕ → System
sessions a = init_system (end_point 2) (tcp tcp_conn)

sessions-IsSettled : (a : ℕ) → IsSettled (sessions a)
unfolding init_system
sessions-IsSettled a = refl

abbrev world : World
world = record { client = client; sessions = sessions }

-- The pool holds the one session that it may.
abbrev held : World
held = record { client = record client { ss_map = some (7 ∷ []) }; sessions = sessions }

admit-settles_example : Settled 8 held (admit 8 held)
admit-settles_example = admit-settles 8 held (sessions-IsSettled 8)

stop_lem_example : Emptied held (7 ∷ []) (stop held)
stop_lem_example = stop_lem held (7 ∷ []) refl refl sessions-IsSettled

abbrev start : State
start = init_state client sessions

abbrev asked : State
asked = (run_reconnect start).0

Reach-Flight_example : Flight asked
Reach-Flight_example = Reach-Flight 2 opts 1 sessions new_client_client (next here (triggers start))

-- A second request comes while the loop of the first one runs a pass.
abbrev passing : State
passing = turn asked

passing_reached : Reach start passing
unfolding run_reconnect
passing_reached = next (next here (triggers start)) (turns asked (omega arith))

abbrev asked_again : State
asked_again = (run_reconnect passing).0

again_closed : Reach asked_again (close asked_again)
again_closed = next here (closes asked_again)

request_kept_example :
    IsPending (close asked_again) ⊎ (PassStarted again_closed ⊎ IsClosed (close asked_again))
request_kept_example = request_kept 2 opts 1 sessions new_client_client passing_reached again_closed

abbrev shut : State
shut = close asked

shut-Flight : Flight shut
shut-Flight =
    Reach-Flight 2 opts 1 sessions new_client_client
      (next (next here (triggers start)) (closes asked))

no_loop_starts_example :
    IsClosed (turn shut)
    × ((turn shut).at_top + (turn shut).in_pass ≤ shut.at_top + shut.in_pass)
    × ((turn shut).in_pass ≤ shut.in_pass)
    × (0 < shut.at_top → (turn shut).at_top < shut.at_top)
unfolding run_reconnect close stop
no_loop_starts_example = no_loop_starts (turns shut (omega arith)) shut-Flight refl

abbrev failing : Env
failing = record { connect = λ n w. (w, false); rest = λ n w. w }

-- The first call succeeds, and the session is lost at once.
abbrev first_only : Env
first_only = record { connect = λ n w. (w, if n == 0 then true else false); rest = λ n w. w }

reconnect-ends_example :
    is_some (reconnect first_only (budget 1 (max_attempts (init opts))) world) ≡ true
reconnect-ends_example = reconnect-ends first_only 1 world (λ n w h. ground arith)

reconnect-down_example :
    ended (reconnect failing (max_attempts (init opts)) world)
    ≡ some (max_attempts (init opts), 0, waits_from (init opts) 1 (max_attempts (init opts) - 1))
unfolding is_full session_num prune init with_connection_number with_server_address
    with_reconnect_attempts interval
reconnect-down_example =
    reconnect-down failing world (λ n w h. (refl, h), λ n w h. h) (refl, refl) (omega arith)
