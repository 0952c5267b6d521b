-- ===== src/Session/Startup.antt =====
-- The start of a session in `run`, with a failing `OnOpen`, and the registrations of close callbacks
-- (session_callback.go).
use getty.Common.{
  ℕ, ◌≡◌, true, not, ◌&&◌, ◌||◌, Option, none, some, if◌then◌else◌, is_some, Option-cases, inl, inr,
  arith,
}
use getty.Errors.{Error, user, panicked}
use getty.Callbacks.{Callbacks, Key}
use getty.Callbacks
use getty.Connection.Stats.{update_active}
use getty.Connection.Conn.{stats_of, with_stats}
use getty.Session.State.{Session}
use getty.Session.Lifecycle.{
  System, Worker, idle, requested, took_life, waits_readers, waits_tasks, begin_run, start_reader,
  leave,
}
use getty.Session.Lifecycle

-- `AddCloseCallback`: nothing for a nil function, nor on a closed session. `none` is a fault of the list.
unfoldable pub add_close_callback : Key → Key → Option ℕ → Session → Option Session
unfolding Callbacks.add
add_close_callback handler key f s =
    if not (is_some f) || s.done
    then some s
    else (elim (Callbacks.add s.close_callback handler key f) [
      | none ↦ none
      | some t ↦ some (record s { close_callback = t })
    ])

-- `RemoveCloseCallback`.
unfoldable pub remove_close_callback : Key → Key → Session → Option Session
unfolding Callbacks.remove
remove_close_callback handler key s =
    if s.done then some s else (elim (Callbacks.remove s.close_callback handler key) [
      | none ↦ none
      | some t ↦ some (record s { close_callback = t })
    ])

-- What `OnOpen` does: it returns nil, an error, or panics.
pub data Opening : Type 0 where
  opens : Opening
  fails : ℕ → Opening
  panics : Opening

-- `callOnOpen`: a panic is an error.
unfoldable pub call_on_open : Opening → Option Error
call_on_open opens = none
call_on_open (fails n) = some (user n)
call_on_open panics = some panicked

-- `UpdateActive` of the session.
unfoldable pub touch : ℕ → Session → Session
unfolding update_active
touch now s = elim s.connection [
  | none ↦ s
  | some c ↦ record s { connection = some (with_stats c (update_active now (stats_of c))) }
]

-- `run` in one go, at the time `now`, with the timer that the wheel gives; `none` is its panic on a session
-- without a connection, a listener or a writer. It does nothing while a reset is pending.
unfoldable pub run : ℕ → ℕ → Opening → System → Option System
unfolding begin_run start_reader leave touch call_on_open Lifecycle.stop Lifecycle.gc
run now timer opening w =
    let begun = begin_run w in
    let active = record begun { session = touch now w.session } in
    elim w.worker [
      | requested ↦ some w
      | took_life _ ↦ some w
      | waits_readers _ ↦ some w
      | waits_tasks _ ↦ some w
      | idle ↦
          if is_some w.session.connection
            && (is_some w.session.listener && is_some w.session.writer)
          then some (elim (call_on_open opening) [
            | some e ↦ leave 0 (Lifecycle.gc (Lifecycle.stop active))
            | none ↦ leave 0 (start_reader timer active)
          ])
          else none
    ]

stop_lem :
    (w : System)
    → w.session.once ≡ w.session.done
    → ((Lifecycle.stop w).session.done ≡ true)
      × ((Lifecycle.stop w).session.attrs ≡ w.session.attrs)
      × ((Lifecycle.stop w).readers ≡ w.readers)
      × ((Lifecycle.stop w).session.gr_num ≡ w.session.gr_num)
unfolding Lifecycle.stop Lifecycle.stop_body Lifecycle.spawn Lifecycle.stop_mark Lifecycle.stop_take
    Lifecycle.stop_shut Lifecycle.stop_call Lifecycle.stop_ask
stop_lem w o = elim (Option-cases (Lifecycle.owner_to_reconnect w.session)) [
  | inl e ↦ ground (arith, o, e)
  | inr (c, e) ↦ ground (arith, o, e)
]

gc_lem :
    (w : System)
    → is_some w.session.attrs ≡ true
    → ((Lifecycle.gc w).session.done ≡ w.session.done)
      × ((Lifecycle.gc w).session.connection ≡ none)
      × ((Lifecycle.gc w).readers ≡ w.readers)
      × ((Lifecycle.gc w).session.gr_num ≡ w.session.gr_num)
unfolding Lifecycle.gc Lifecycle.spawn
gc_lem w a = elim (Option-cases w.session.connection) [
  | inl e ↦ ground (arith, a, e)
  | inr (c, e) ↦ ground (arith, a, e)
]

touch_lem :
    (now : ℕ) (s : Session)
    → ((touch now s).attrs ≡ s.attrs)
      × ((touch now s).once ≡ s.once)
      × ((touch now s).done ≡ s.done)
      × ((touch now s).gr_num ≡ s.gr_num)
unfolding touch
touch_lem now s = elim (Option-cases s.connection) [
  | inl e ↦ ground (arith, e)
  | inr (c, e) ↦ ground (arith, e)
]

-- A session whose `OnOpen` returned an error or panicked is closed, its connection is detached, and no
-- reader of it was started. Before, it was as sessions are that were made: with attributes, and closed by
-- `stop` only; no reset is pending.
pub run-failed :
    (now timer : ℕ) (opening : Opening) (w v : System)
    → is_some (call_on_open opening) ≡ true
    → w.worker ≡ idle
    → is_some w.session.attrs ≡ true
    → w.session.once ≡ w.session.done
    → run now timer opening w ≡ some v
    → (v.session.done ≡ true)
      × (v.session.connection ≡ none)
      × (v.readers ≡ w.readers)
      × (v.session.gr_num ≡ w.session.gr_num)
unfolding run begin_run leave
run-failed now timer opening w v f i a o e =
    let t = touch_lem now w.session in
    let active = record (begin_run w) { session = touch now w.session } in
    let s = stop_lem active (ground (arith, t, o)) in
    let g = gc_lem (Lifecycle.stop active) (ground (arith, s, t, a)) in
    elim (Option-cases (call_on_open opening)) [
      | inl n ↦ absurd (ground (arith, n, f))
      | inr (x, n) ↦ ground (arith, i, n, e, t, s, g)
    ]
