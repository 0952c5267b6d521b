-- ===== src/Session/Events.antt =====
-- What a session calls of its listener: `addTask`, and the end of `handlePackage`.
pub mod Order
use getty.Common.{
  ℕ, ◌+◌, ◌-◌, Bool, true, false, not, ◌&&◌, ◌||◌, Option, none, some, List, [], ◌∷◌, ◌++◌,
  if◌then◌else◌, is_some,
}
use getty.Errors.{Error}
use getty.Connection.Stats.{inc_read_pkg_num}
use getty.Connection.Conn.{Conn, tcp, udp, ws, stats_of, with_stats}
use getty.Session.State.{Session, acquire}
use getty.Session.Lifecycle.{System}
use getty.Session.Lifecycle

-- `OnMessage` with a package, `OnCron`, `OnError` and `OnClose`.
pub data Event (P : Type 0) : Type 0 where
  on_message : P → Event P
  on_cron : Event P
  on_error : Error → Event P
  on_close : Event P

-- `IncReadPkgNum`, where there is a connection.
unfoldable pub inc_read_pkg_num_of : Session → Session
unfolding inc_read_pkg_num
inc_read_pkg_num_of s = elim s.connection [
  | none ↦ s
  | some c ↦ record s { connection = some (with_stats c (inc_read_pkg_num (stats_of c))) }
]

-- The function of `addTask`, on the lifecycle that it captured. The first three arguments are what other
-- goroutines do behind `acquire`, behind the test of `IsClosed`, and behind `OnMessage`; its count on the lifecycle
-- is the `enters` of Session.Lifecycle, and is given back at the end.
unfoldable pub run_task :
    {P : Type 0}
    → (System → System)
    → (System → System)
    → (System → System)
    → ℕ
    → P
    → System
    → System × List (Event P)
unfolding inc_read_pkg_num_of acquire
run_task admitted tested called a pkg w =
    let w₁ = admitted w in
    let w₂ = tested w₁ in
    let w₃ = called w₂ in
    if not (acquire (w.lives a)).1
    then (w, [])
    else if w₁.session.done
    then (w₁, [])
    else if not (is_some w₂.session.listener)
    then (w₂, [])
    else (record w₃ { session = inc_read_pkg_num_of w₃.session }, on_message pkg ∷ [])

-- How the read loop of `handlePackage` ended: it returned, or it panicked, as a loop with no reader does.
pub data Outcome : Type 0 where
  returned : Option Error → Outcome
  panicked : Outcome

-- `OnError`, if the loop returned an error, and `OnClose`. Their panics are recovered.
unfoldable pub last_events : {P : Type 0} → Outcome → List (Event P)
last_events (returned (some e)) = on_error e ∷ on_close ∷ []
last_events (returned none) = on_close ∷ []
last_events panicked = on_close ∷ []

-- The deferred function of `handlePackage`: it stops the session, calls the listener, and detaches the
-- connection last.
unfoldable pub end_of_loop : {P : Type 0} → Outcome → System → System × List (Event P)
unfolding last_events
end_of_loop out w =
    let counted = record w { session = record (w.session) { gr_num = w.session.gr_num - 1 } } in
    (
      Lifecycle.gc (Lifecycle.stop counted),
      if is_some w.session.listener then last_events out else [],
    )
