-- ===== src/Client/Backoff.antt =====
-- `reConnect`: the loop that fills the pool, with its limit on attempts and its back-off.
pub mod Attempts
pub mod Down
use getty.Common.{
  ℕ, zero, suc, ◌+◌, ◌-◌, ◌*◌, ◌%◌, ◌^◌, ◌<◌, ◌≡◌, Bool, true, false, not, ◌||◌, Option, none, some,
  List, [], ◌∷◌, ◌++◌, ◌==◌, leb, ltb, if◌then◌else◌,
}
use getty.Options.{ClientOptions}
use getty.Client.Pool.{World, session_num}

-- `defaultReconnectInterval` in nanoseconds, `defaultMaxReconnectAttempts` and `maxBackOffTimes`.
abbrev pub default_reconnect_interval : ℕ
default_reconnect_interval = 300000000

abbrev pub default_max_reconnect_attempts : ℕ
default_max_reconnect_attempts = 50

abbrev pub max_back_off_times : ℕ
max_back_off_times = 10

unfoldable pub interval : ClientOptions → ℕ
interval o = if o.reconnect_interval == 0 then default_reconnect_interval else o.reconnect_interval

unfoldable pub max_attempts : ClientOptions → ℕ
max_attempts o =
    if o.max_reconnect_attempts == 0
    then default_max_reconnect_attempts
    else o.max_reconnect_attempts

-- The back-off behind a failure, in nanoseconds: a product of two `int64`.
unfoldable pub backoff : ClientOptions → ℕ → ℕ
unfolding interval
backoff o attempts =
    let times = if ltb max_back_off_times attempts then max_back_off_times else attempts in
    (times * interval o) % 2 ^ 64

-- What the rest of the program does: `connect` for the call with a number, and the other goroutines
-- while the loop waits behind that call.
pub record Env : Type 0 where
  pub connect : ℕ → World → World × Bool
  pub rest : ℕ → World → World

-- A pass that came to its end: the calls of `connect`, those that succeeded, and the waits in order.
pub record Pass : Type 0 where
  pub world : World
  pub dials : ℕ
  pub wins : ℕ
  pub waits : List ℕ

-- `connPoolSize <= c.sessionNum()`: it prunes the pool on the way.
unfoldable pub is_full : ClientOptions → World → World × Bool
is_full o w = let r = session_num w in (r.0, leb o.number r.1)

-- The test of the loop behind a failure: `sessionNum` is called only if the client is open.
unfoldable pub gives_up : ClientOptions → ℕ → World → World × Bool
unfolding is_full max_attempts
gives_up o attempts w =
    if w.client.done
    then (w, true)
    else (let r = is_full o w in (r.0, r.1 || leb (max_attempts o) attempts))

-- The loop of `reConnect`, with the options that it read at its start; `none` is the end of the fuel. The
-- first number is the fuel, the second one `reconnectAttempts`; the pass collects what happened.
unfoldable pub loop : Env → ClientOptions → ℕ → ℕ → Pass → Option Pass
unfolding is_full gives_up backoff max_attempts
loop env o zero attempts p = none
loop env o (suc fuel) attempts p =
    let counted = is_full o p.world in
    let tried = env.connect p.dials counted.0 in
    let failed = gives_up o (attempts + 1) tried.0 in
    let rested = env.rest p.dials failed.0 in
    let dialed = record p { world = failed.0; dials = p.dials + 1 } in
    let waited = record dialed {
      world = rested;
      waits = p.waits ++ (backoff o (attempts + 1) ∷ []);
    } in
    let won = record p { world = tried.0; dials = p.dials + 1; wins = p.wins + 1 } in
    let again =
      loop env o fuel (if tried.1 then 0 else attempts + 1) (if tried.1 then won else waited) in
    if leb (max_attempts o) attempts || p.world.client.done
    then some p
    else if counted.1
    then some (record p { world = counted.0 })
    else if tried.1
    then again
    else if failed.1
    then some dialed
    else if rested.client.done
    then some waited
    else again

-- `reConnect` from its start.
unfoldable pub reconnect : Env → ℕ → World → Option Pass
unfolding loop
reconnect env fuel w =
    loop env w.client.opts fuel 0 (record { world = w; dials = 0; wins = 0; waits = [] })
