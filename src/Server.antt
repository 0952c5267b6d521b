-- ===== src/Server.antt =====
-- transport/server.go: the server, its accept loop with the back-off, and its shutdown.
pub mod Accept
pub mod Shutdown
pub mod Endpoints
use text.Mathlib.Text.{◌==◌ as str_eq}
use getty.Common.{
  ℕ, zero, suc, ◌+◌, ◌*◌, Bool, true, false, not, ◌&&◌, ◌||◌, Option, none, some, List, [], ◌∷◌,
  ◌++◌, ◌==◌, ltb, if◌then◌else◌, is_some,
}
use getty.Constants.{EndPointType, udp_endpoint, ws_server, wss_server}
use getty.Options.{ServerOptions}

-- `newServer` panics on a stream server with TLS and no builder of its configuration, and on a WebSocket
-- server with no path; the result says whether it returns.
unfoldable pub is_valid : EndPointType → ServerOptions → Bool
is_valid kind o =
    if not (kind == udp_endpoint) && (o.ssl_enabled && not (is_some o.tls_config_builder))
    then false
    else not (((kind == ws_server) || (kind == wss_server)) && str_eq o.path "")

-- What one call of `Accept` gives, a connection being a number: an error, a connection to the socket
-- itself, or a connection that the callback refuses (with an error or a panic) or takes.
pub data Accepted : Type 0 where
  failed : Accepted
  self_connect : ℕ → Accepted
  refused : ℕ → Accepted
  taken : ℕ → Accepted

-- The loop's variables: `delay` in nanoseconds, the waits so far, the connections that `Accept` gave,
-- those that `accept` closed, and those whose session runs.
pub record Acceptor : Type 0 where
  pub delay : ℕ
  pub waits : List ℕ
  pub given : List ℕ
  pub closed : List ℕ
  pub running : List ℕ

abbrev pub init_acceptor : Acceptor
init_acceptor = record { delay = 0; waits = []; given = []; closed = []; running = [] }

-- The back-off behind an error: 5 ms, then twice the last one, and at most 1 s.
unfoldable pub next_delay : ℕ → ℕ
next_delay d =
    let next = if d == 0 then 5000000 else d * 2 in if ltb 1000000000 next then 1000000000 else next

-- `accept`, and what the loop does with its result.
unfoldable pub accept : Accepted → Acceptor → Acceptor
unfolding next_delay
accept failed a = record a { delay = next_delay a.delay }
accept (self_connect c) a = record a {
  delay = next_delay a.delay;
  given = c ∷ a.given;
  closed = c ∷ a.closed;
}
accept (refused c) a = record a {
  delay = next_delay a.delay;
  given = c ∷ a.given;
  closed = c ∷ a.closed;
}
accept (taken c) a = record a { delay = 0; given = c ∷ a.given; running = c ∷ a.running }

-- The wait before the next call, where there is a delay.
unfoldable pub back_off : Acceptor → Acceptor
back_off a = if a.delay == 0 then a else record a { waits = a.waits ++ a.delay ∷ [] }

-- The loop of `runTCPEventLoop` for a number of rounds: with k rounds left, `closed k` is what `IsClosed`
-- answers, `woken k` whether the close ends the wait, and `calls k` what `Accept` gives.
unfoldable pub run_tcp_event_loop :
    (ℕ → Bool) → (ℕ → Bool) → (ℕ → Accepted) → ℕ → Acceptor → Acceptor
unfolding accept back_off
run_tcp_event_loop closed woken calls zero a = a
run_tcp_event_loop closed woken calls (suc k) a =
    let waited = back_off a in
    let rest = run_tcp_event_loop closed woken calls k (accept (calls k) waited) in
    if closed k then a else if not (a.delay == 0) && woken k then waited else rest
