-- ===== src/Server/Shutdown.antt =====
-- `RunEventLoop` against `Close`: the critical sections of the goroutine that listens, publishes the
-- listener and registers the event loop, and those of `stop`, in any order.
pub mod Close
use getty.Common.{ℕ, ◌+◌, ◌-◌, ◌≡◌, Bool, true, false, not, ◌&&◌, ◌||◌, if◌then◌else◌}

-- Where `RunEventLoop` stands. `listening` has an open listener that is not published; `publishing` and
-- `registering` hold `lock` behind their test of `done`; `over` is its end, or that of the event loop.
pub data Phase : Type 0 where
  idle listening publishing published registering looping over : Phase

-- Where `stop` stands: `closing` is between the close of `done` and the section that takes `lock`.
pub data Stop : Type 0 where
  running closing stopped : Stop

-- `has_listener` says that the field `streamListener` or `pktListener` is set, `is_open` that the listener
-- is open. A server runs `RunEventLoop` once, so it has one listener. `lock` says that it is held.
pub record State : Type 0 where
  pub done : Bool
  pub once : Bool
  pub lock : Bool
  pub has_listener : Bool
  pub is_open : Bool
  pub wg : ℕ
  pub phase : Phase
  pub stop : Stop

abbrev pub init_state : State
init_state = record {
  done = false;
  once = false;
  lock = false;
  has_listener = false;
  is_open = false;
  wg = 0;
  phase = idle;
  stop = running;
}

-- `listenTCP` and `listenUDP`, on a call that opens its listener: the test comes first.
unfoldable pub listen : State → State
listen s =
    if s.done then record s { phase = over } else record s { is_open = true; phase = listening }

-- The test of `publishStreamListener` and `publishPacketListener`, which take `lock`; on a closed server
-- they close the listener.
unfoldable pub publish_test : State → State
publish_test s =
    if s.done
    then record s { is_open = false; phase = over }
    else record s { lock = true; phase = publishing }

-- The end of these two functions.
unfoldable pub publish : State → State
publish s = record s { has_listener = true; lock = false; phase = published }

-- `startEventLoop`: its test, and its count.
unfoldable pub register_test : State → State
register_test s =
    if s.done then record s { phase = over } else record s { lock = true; phase = registering }

unfoldable pub register : State → State
register s = record s { wg = s.wg + 1; lock = false; phase = looping }

-- `wg.Done` of the event loop.
unfoldable pub end_loop : State → State
end_loop s = record s { wg = s.wg - 1; phase = over }

-- `stop` up to its lock: a second call does nothing.
unfoldable pub stop_begin : State → State
stop_begin s = if s.done || s.once then s else record s { done = true; once = true; stop = closing }

-- The section of `stop` that takes `lock` to read the listeners, and their close.
unfoldable pub stop_body : State → State
stop_body s = record s { is_open = s.is_open && not s.has_listener; stop = stopped }

pub data Step : State → State → Type 0 where
  listens : (s : State) → s.phase ≡ idle → Step s (listen s)
  tests_publish : (s : State) → s.phase ≡ listening → s.lock ≡ false → Step s (publish_test s)
  publishes : (s : State) → s.phase ≡ publishing → Step s (publish s)
  tests_register : (s : State) → s.phase ≡ published → s.lock ≡ false → Step s (register_test s)
  registers : (s : State) → s.phase ≡ registering → Step s (register s)
  ends_loop : (s : State) → s.phase ≡ looping → Step s (end_loop s)
  begins_stop : (s : State) → Step s (stop_begin s)
  stops : (s : State) → s.stop ≡ closing → s.lock ≡ false → Step s (stop_body s)

pub data Reach (s : State) : State → Type 0 where
  here : Reach s s
  next : {t u : State} → Reach s t → Step t u → Reach s u
