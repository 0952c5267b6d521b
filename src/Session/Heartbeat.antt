-- ===== src/Session/Heartbeat.antt =====
-- `heartbeat` of session.go as a whole: the ping of a WebSocket connection, `OnCron`, and the close of a session
-- whose `OnCron` panics.
use getty.Common.{
  ℕ, ◌≡◌, refl, Bool, true, false, not, Option, none, some, List, [], ◌∷◌, if◌then◌else◌, is_some,
  arith,
}
use getty.Errors.{Error, session_closed}
use getty.Connection.Net.{Net}
use getty.Connection.Conn.{Conn, tcp, udp, ws}
use getty.Connection.Ws.{write_message}
use getty.Session.State.{acquire}
use getty.Session.Lifecycle.{System}
use getty.Session.Lifecycle
use getty.Session.Lifecycle.Stops.{stop-closes}
use getty.Session.Events.{Event, on_cron}

-- `writePing`, where the connection is a WebSocket; its error is logged.
unfoldable pub ping : Net → Conn → Conn
unfolding write_message
ping net (tcp c) = tcp c
ping net (udp c) = udp c
ping net (ws c) = ws (write_message net c []).1

-- The close of the raw transport.
unfoldable pub close_raw : Conn → Conn
close_raw (tcp c) = tcp (record c { closed = true })
close_raw (udp c) = udp (record c { closed = true })
close_raw (ws c) = ws (record c { closed = true })

abbrev pub is_raw_closed : Conn → Bool
is_raw_closed (tcp c) = c.closed
is_raw_closed (udp c) = c.closed
is_raw_closed (ws c) = c.closed

unfoldable pub on_connection : Conn → System → System
on_connection c w = record w { session = record (w.session) { connection = some c } }

-- The function of `heartbeat`, on the lifecycle that it captured; the flag says whether `OnCron` panics. The
-- second argument is what other goroutines do behind `acquire`.
unfoldable pub cron :
    {P : Type 0} → Net → (System → System) → Bool → ℕ → System → System × List (Event P)
unfolding acquire on_connection ping close_raw
cron net admitted faulty a w =
    let v = admitted w in
    if not (acquire (w.lives a)).1 then (w, []) else (elim v.session.connection [
      | none ↦ (v, [])
      | some c ↦
          let pinged = on_connection (ping net c) v in
          if not (is_some v.session.listener) then (v, []) else (
            if faulty
                then on_connection (close_raw (ping net c)) (Lifecycle.stop pinged)
                else pinged,
            on_cron ∷ [],
          )
    ])

-- What other goroutines do where they do nothing.
abbrev pub alone : System → System
alone w = w

-- `heartbeat`, without a task pool and with nothing in between: an error ends the timer.
unfoldable pub heartbeat :
    {P : Type 0} → Net → Bool → ℕ → System → Option Error × System × List (Event P)
unfolding cron
heartbeat net faulty a w = elim w.session.end_point [
  | none ↦ (some session_closed, w, [])
  | some _ ↦ let (v, es) = cron net alone faulty a w in (none, v, es)
]

close_raw-closes : (c : Conn) → is_raw_closed (close_raw c) ≡ true
unfolding close_raw
close_raw-closes (tcp c) = refl
close_raw-closes (udp c) = refl
close_raw-closes (ws c) = refl

cron-pings :
    {P : Type 0}
    → (net : Net) → (faulty : Bool) → (w : System) → (c : Conn) → w.session.connection ≡ some c
    → (w.lives w.session.lifecycle).closed ≡ false
    → is_some w.session.listener ≡ true
    → cron {P = P} net alone faulty w.session.lifecycle w ≡ (
      if faulty
          then on_connection
              (close_raw (ping net c))
              (Lifecycle.stop (on_connection (ping net c) w))
          else on_connection (ping net c) w,
      on_cron ∷ [],
    )
unfolding cron acquire
cron-pings net faulty w c h o l = ground (arith, h, o, l)

pub cron-closed :
    {P : Type 0}
    → (net : Net) → (admitted : System → System) → (faulty : Bool) → (a : ℕ) → (w : System)
    → (w.lives a).closed ≡ true
    → cron {P = P} net admitted faulty a w ≡ (w, [])
unfolding cron acquire
cron-closed net admitted faulty a w o = ground (arith, o)

cron-faulty :
    {P : Type 0}
    → (net : Net) → (w : System) → (c : Conn) → w.session.once ≡ false
    → w.session.connection ≡ some c
    → (w.lives w.session.lifecycle).closed ≡ false
    → is_some w.session.listener ≡ true
    → (v : System) × (cron {P = P} net alone true w.session.lifecycle w ≡ (v, on_cron ∷ []))
      × (v.session.done ≡ true)
      × (v.session.connection ≡ some (close_raw (ping net c)))
      × ((others : System → System) (again : Bool)
          → cron {P = P} net others again w.session.lifecycle v ≡ (v, []))
unfolding on_connection
cron-faulty net w c n h o l =
    let (done, ended, _) = stop-closes (on_connection (ping net c) w) n in
    let v =
      on_connection (close_raw (ping net c)) (Lifecycle.stop (on_connection (ping net c) w)) in
    (
      v,
      cron-pings net true w c h o l,
      done,
      refl,
      λ others again. cron-closed net others again w.session.lifecycle v ended,
    )

-- On an open lifecycle, a session with an end point, a connection and a listener calls `OnCron`. If that
-- panics, the timer goes on with no error, while the session is done and keeps the connection, the raw
-- transport of which is closed; a later run on the same lifecycle changes nothing and calls nothing.
pub heartbeat-faulty :
    {P : Type 0}
    → (net : Net) → (w : System) → (c : Conn) → is_some w.session.end_point ≡ true
    → w.session.once ≡ false
    → w.session.connection ≡ some c
    → (w.lives w.session.lifecycle).closed ≡ false
    → is_some w.session.listener ≡ true
    → (v : System) × (heartbeat {P = P} net true w.session.lifecycle w ≡ (none, v, on_cron ∷ []))
      × (v.session.done ≡ true)
      × ((d : Conn) × (v.session.connection ≡ some d) × (is_raw_closed d ≡ true))
      × ((others : System → System) (again : Bool)
          → cron {P = P} net others again w.session.lifecycle v ≡ (v, []))
unfolding heartbeat
heartbeat-faulty net w c e n h o l =
    let (v, ran, done, closed, again) = cron-faulty net w c n h o l in
    (
      v,
      ground (arith, e, ran),
      done,
      (close_raw (ping net c), closed, close_raw-closes (ping net c)),
      again,
    )
