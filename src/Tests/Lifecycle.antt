-- ===== src/Tests/Lifecycle.antt =====
-- Runs of the end of a session: a close, and a reset that closes and detaches it.
use getty.Common.{ℕ, List, ◌∷◌, ◌++◌, ◌≡◌, ◌≢◌, refl, false, Option, none, some, []}
use getty.Connection.Conn.{tcp}
use getty.Session.Lifecycle.{
  listen, listens, System, stop_mark, stop_take, stop_shut, stop_call, stop_ask, owner_to_reconnect,
  task_at, gc, drop_task, idle, init_system, Reach, here, next, enter, finish, spawn, reset_request,
  reset_take, reset_shut, reset_detach, marks, takes, shuts, calls, asks, requests, resets,
  reset_shuts, detaches, enters, finishes,
}
use getty.Session.Lifecycle.Invariant.{Inv, Reach-Inv}
use getty.Session.Lifecycle.Reset.{finish-ne-none, reset_clear-quiet, reset_ends}
use getty.Errors.{session_closed}
use getty.Session.Events.{Event, on_close, returned, end_of_loop}
use getty.Session.Events.Order.{Silent, end_of_loop-Silent}
use getty.Tests.Fixtures.{end_point, tcp_conn}

abbrev fresh : System
fresh = init_system (end_point 2) (tcp tcp_conn)

-- A `stop` of the session's first lifecycle, section by section.
abbrev stopped : System → System
stopped w = stop_ask (stop_call 0 (stop_shut 0 (stop_take (stop_mark w))))

-- A call is let in, and a stop is halfway: the lifecycle is not closed yet.
abbrev halfway : System
halfway = stop_take (stop_mark (enter fresh))

halfway_reached : Reach fresh halfway
unfolding init_system enter stop_mark
halfway_reached =
    next (next (next here (enters fresh)) (marks (enter fresh) refl))
      (takes (stop_mark (enter fresh)) refl)

-- That stop has ended.
abbrev called : System
called = stopped (enter fresh)

called_reached : Reach fresh called
unfolding init_system enter stop_mark stop_take stop_shut stop_call
called_reached =
    next (next (next halfway_reached (shuts halfway 0 refl)) (calls (stop_shut 0 halfway) 0 refl))
      (asks (stop_call 0 (stop_shut 0 halfway)) refl)

-- A reset that closed the session and detached its connection.
abbrev requested : System
requested = reset_request fresh

abbrev reset_stopped : System
reset_stopped = stopped requested

reset_stopped_reached : Reach fresh reset_stopped
unfolding init_system reset_request stop_mark stop_take stop_shut stop_call
reset_stopped_reached =
    let m = stop_mark requested in
    let t = stop_take m in
    let s = stop_shut 0 t in
    next
      (next
        (next (next (next (next here (requests fresh refl)) (marks requested refl)) (takes m refl))
          (shuts t 0 refl))
        (calls s 0 refl))
      (asks (stop_call 0 s) refl)

abbrev waiting : System
waiting = reset_shut 0 (reset_take reset_stopped)

abbrev detached : System
detached = reset_detach 0 waiting

detached_reached : Reach fresh detached
unfolding init_system reset_request stop_mark stop_take stop_shut stop_call stop_ask spawn
    owner_to_reconnect reset_take reset_shut
detached_reached =
    next
      (next (next reset_stopped_reached (resets reset_stopped refl refl refl))
        (reset_shuts (reset_take reset_stopped) 0 refl))
      (detaches waiting 0 refl refl)

Reach-Inv_example : Inv halfway
Reach-Inv_example = Reach-Inv (end_point 2) (tcp tcp_conn) halfway_reached

finish-ne-none_example : finish 1 called ≢ none
finish-ne-none_example = finish-ne-none (end_point 2) (tcp tcp_conn) called 1 called_reached

reset_ends_example :
    (v : System) × Reach detached v × (v.worker ≡ idle) × (v.session.done ≡ false) × (v.tasks ≡ [])
unfolding reset_detach
reset_ends_example = reset_ends (end_point 2) (tcp tcp_conn) detached 0 detached_reached refl

-- The close callbacks have run, and the connection is closed.
abbrev or_fresh : Option System → System
or_fresh none = fresh
or_fresh (some w) = w

abbrev over : System
over = or_fresh (finish 0 (or_fresh (finish 0 detached)))

over_reached : Reach fresh over
unfolding finish reset_detach init_system task_at gc owner_to_reconnect drop_task stop_mark
    stop_take stop_shut stop_call stop_ask spawn reset_request reset_take reset_shut
over_reached =
    next (next detached_reached (finishes detached (or_fresh (finish 0 detached)) 0 refl))
      (finishes (or_fresh (finish 0 detached)) over 0 refl)

reset_clear-quiet_example :
    (over.tasks ≡ []) × (over.readers ≡ 0) × (over.session.connection ≡ none)
unfolding finish reset_detach init_system task_at gc owner_to_reconnect drop_task stop_mark
    stop_take stop_shut stop_call stop_ask spawn reset_request reset_take reset_shut
reset_clear-quiet_example =
    reset_clear-quiet (end_point 2) (tcp tcp_conn) over 0 over_reached refl refl

-- A session with a listener, whose read loop ends with an error.
abbrev heard : System
heard = listen 1 fresh

heard_reached : Reach fresh heard
heard_reached = next here (listens fresh 1)

end_of_loop-Silent_example :
    ((es : List (Event ℕ)) × ((end_of_loop {P = ℕ} (returned (some session_closed)) heard).1
        ≡ es ++ on_close ∷ []))
    × ((v : System)
        → Reach (end_of_loop {P = ℕ} (returned (some session_closed)) heard).0 v
        → Silent ℕ heard.session.lifecycle v)
unfolding listen init_system
end_of_loop-Silent_example =
    end_of_loop-Silent (end_point 2) (tcp tcp_conn) heard (returned (some session_closed))
      heard_reached refl refl
