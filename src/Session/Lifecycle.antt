-- ===== src/Session/Lifecycle.antt =====
-- How a session ends: `stop`, `gc`, `reset`, and the goroutines that they leave behind. Each step below
-- is one critical section of the code, so a sequence of steps is an interleaving of goroutines.
pub mod Invariant
pub mod Reset
pub mod Stops
use text.Mathlib.Text.{◌==◌ as str_eq}
use getty.Common.{
  ℕ, zero, suc, ◌+◌, ◌-◌, ◌/◌, ◌≡◌, ◌<◌, Bool, true, false, not, ◌&&◌, Option, none, some, List, [],
  ◌∷◌, ◌==◌, if◌then◌else◌,
}
use getty.Callbacks.{Callbacks}
use getty.Callbacks
use getty.Connection.Conn.{Conn}
use getty.Session.State.{
  EndPoint, new_session, Session, Lifecycle, new_session_lifecycle, acquire, release,
  add_closing_task, close_lifecycle, AttrValue, owner, flag, session_client_key,
  ignore_reconnect_key, default_period, pending_duration,
}
use getty.Session.Setters.{get_attribute, set_event_listener}

-- What a goroutine that holds a lifecycle does: the close callbacks, the closing of a connection that
-- waits for some seconds, or a call that `acquire` let in (`WritePkg`, a task of `addTask`, a heartbeat).
pub data Work : Type 0 where
  callbacks : Callbacks → Work
  close_conn : Conn → ℕ → Work
  call : Work

pub record Task : Type 0 where
  pub life : ℕ
  pub work : Work

-- Where the body of `stop` stands, which `once` lets one goroutine run: `done` is closed; the timer and the
-- lifecycle are taken; that lifecycle is closed; the close callbacks are started. Another `stop` waits for its end.
pub data Stopper : Type 0 where
  rest : Stopper
  marked : Stopper
  took : ℕ → Stopper
  shut : ℕ → Stopper
  called : Stopper

-- Where the worker of `ResetAsync` stands; `requested` is from the request to the return of its `stop`. Then it
-- holds the lifecycle that it took and waits for.
pub data Worker : Type 0 where
  idle : Worker
  requested : Worker
  took_life : ℕ → Worker
  waits_readers : ℕ → Worker
  waits_tasks : ℕ → Worker

-- `lives` is the heap of lifecycles, and `fresh` the next address. `readers` counts `grWG`: startups in
-- `run` and read goroutines. `closings` counts the goroutines that were started for close callbacks since the last reset.
-- `reconnects` are the owners whose `runReconnect` was called, newest first.
pub record System : Type 0 where
  pub session : Session
  pub lives : ℕ → Lifecycle
  pub fresh : ℕ
  pub tasks : List Task
  pub readers : ℕ
  pub stopper : Stopper
  pub worker : Worker
  pub closings : ℕ
  pub reconnects : List ℕ

abbrev pub update_life : ℕ → Lifecycle → (ℕ → Lifecycle) → ℕ → Lifecycle
update_life a l m b = if b == a then l else m b

-- `lifecycle.addClosingTask()` and the `go` statement behind it.
unfoldable pub spawn : ℕ → Work → System → System
unfolding add_closing_task
spawn a k w = record w {
  lives = update_life a (add_closing_task (w.lives a)) w.lives;
  tasks = record { life = a; work = k } ∷ w.tasks;
}

-- The critical section of `stopHeartbeat`, and the `close` of the lifecycle that it took.
abbrev pub take_timer : System → System
take_timer w = record w { session = record (w.session) { heartbeat_timer = none } }

abbrev pub shut_life : ℕ → System → System
shut_life a w = record w { lives = update_life a (close_lifecycle (w.lives a)) w.lives }

unfoldable pub reconnect_owner : Option AttrValue → Option AttrValue → Option ℕ
reconnect_owner (some (owner c)) (some (flag false)) = some c
reconnect_owner _ _ = none

-- Both attributes are set, and the flag does not forbid to connect again.
unfoldable pub owner_to_reconnect : Session → Option ℕ
unfolding get_attribute reconnect_owner
owner_to_reconnect s =
    reconnect_owner (get_attribute session_client_key s) (get_attribute ignore_reconnect_key s)

-- The body that `once` guards in `stop`, one section at a time. The deadlines that wake blocked reads are left to
-- the network. First, `close(s.done)`.
unfoldable pub stop_mark : System → System
stop_mark w = record w {
  session = record (w.session) { once = true; done = true };
  stopper = marked;
}

unfoldable pub stop_take : System → System
stop_take w = record (take_timer w) { stopper = took w.session.lifecycle }

unfoldable pub stop_shut : ℕ → System → System
unfolding close_lifecycle
stop_shut a w = record (shut_life a w) { stopper = shut a }

-- The callbacks of that moment go to a goroutine.
unfoldable pub stop_call : ℕ → System → System
unfolding spawn
stop_call a w =
    let started = spawn a (callbacks w.session.close_callback) w in
    record started { closings = started.closings + 1; stopper = called }

unfoldable pub stop_ask : System → System
stop_ask w = elim (owner_to_reconnect w.session) [
  | none ↦ record w { stopper = rest }
  | some c ↦ record w { reconnects = c ∷ w.reconnects; stopper = rest }
]

-- The body with nothing in between.
unfoldable pub stop_body : System → System
unfolding stop_mark stop_take stop_shut stop_call stop_ask
stop_body w =
    let a = w.session.lifecycle in stop_ask (stop_call a (stop_shut a (stop_take (stop_mark w))))

-- `stop`, and `Close`, with nothing in between.
unfoldable pub stop : System → System
stop w = if w.session.once then w else stop_body w

-- `gc`: the attributes are there once, so it detaches the connection once.
unfoldable pub gc : System → System
unfolding spawn
gc w = elim w.session.attrs [
  | none ↦ w
  | some _ ↦
      let s = w.session in
      let detached = record w { session = record s { attrs = none; connection = none } } in
      elim s.connection [
        | none ↦ detached
        | some c ↦ spawn s.lifecycle (close_conn c (s.wait / 1000000000)) detached
      ]
]

-- The fields that `reset` clears when all has ended.
unfoldable pub clear : Session → ℕ → Session
unfolding Callbacks.empty
clear s fresh = record s {
  name = "session";
  end_point = none;
  connection = none;
  listener = none;
  reader = none;
  writer = none;
  max_msg_len = 0;
  max_write_msg_len = 0;
  once = false;
  done = false;
  period = default_period;
  heartbeat_timer = none;
  lifecycle = fresh;
  wait = pending_duration;
  attrs = some (λ _. none);
  gr_num = 0;
  close_callback = Callbacks.empty;
}

-- `ResetAsync` where no reset is pending: it sets `resetRun` and starts the worker, which calls `stop`.
unfoldable pub reset_request : System → System
reset_request w = record w { worker = requested }

-- The worker behind its `stop`, in the two sections of `stopHeartbeat`.
unfoldable pub reset_take : System → System
reset_take w = record (take_timer w) { worker = took_life w.session.lifecycle }

unfoldable pub reset_shut : ℕ → System → System
unfolding close_lifecycle
reset_shut a w = record (shut_life a w) { worker = waits_readers a }

-- From the end of `grWG.Wait` to the wait for the lifecycle.
unfoldable pub reset_detach : ℕ → System → System
reset_detach a w = record (gc w) { worker = waits_tasks a }

-- From the end of that wait to the end of the worker.
unfoldable pub reset_clear : System → System
unfolding clear
reset_clear w = record w {
  session = clear w.session w.fresh;
  lives = update_life w.fresh new_session_lifecycle w.lives;
  fresh = suc w.fresh;
  closings = 0;
  worker = idle;
}

-- The end of the task at a place of the list: it leaves its lifecycle. Panics are recovered there.
unfoldable pub drop_task : ℕ → List Task → List Task
drop_task i [] = []
drop_task zero (t ∷ ts) = ts
drop_task (suc i) (t ∷ ts) = t ∷ drop_task i ts

unfoldable pub task_at : ℕ → List Task → Option Task
task_at i [] = none
task_at zero (t ∷ ts) = some t
task_at (suc i) (t ∷ ts) = task_at i ts

-- `none` is the panic of a counter below 0.
unfoldable pub finish : ℕ → System → Option System
unfolding release
finish i w = elim (task_at i w.tasks) [
  | none ↦ some w
  | some t ↦ elim (release (w.lives t.life)) [
    | none ↦ none
    | some l ↦ some (record w { lives = update_life t.life l w.lives; tasks = drop_task i w.tasks })
  ]
]

-- A call that asks the lifecycle of the session to let it in.
unfoldable pub enter : System → System
unfolding acquire
enter w =
    let a = w.session.lifecycle in
    let r = acquire (w.lives a) in
    if r.1
    then record w {
      lives = update_life a r.0 w.lives;
      tasks = record { life = a; work = call } ∷ w.tasks;
    }
    else w

-- `run` up to `OnOpen`: it counts itself as a startup unless a reset is pending.
unfoldable pub begin_run : System → System
begin_run w = elim w.worker [
  | idle ↦ record w { readers = w.readers + 1 }
  | requested ↦ w
  | took_life _ ↦ w
  | waits_readers _ ↦ w
  | waits_tasks _ ↦ w
]

-- The critical section of `run` behind `OnOpen`, and the start of the read goroutine: the timer is
-- installed only if the session is open.
unfoldable pub start_reader : ℕ → System → System
start_reader timer w =
    let s = w.session in
    let opened = if s.done then s else record s { heartbeat_timer = some timer } in
    record w { session = record opened { gr_num = s.gr_num + 1 }; readers = w.readers + 1 }

-- `grWG.Done` at the end of a startup or of a read goroutine; the latter counted `grNum` down.
unfoldable pub leave : ℕ → System → System
leave k w =
    let s = w.session in
    record w { session = record s { gr_num = s.gr_num - k }; readers = w.readers - 1 }

-- A setter that an application calls at any time.
unfoldable pub listen : ℕ → System → System
unfolding set_event_listener
listen l w = record w { session = set_event_listener l w.session }

pub data Step : System → System → Type 0 where
  listens : (w : System) (l : ℕ) → Step w (listen l w)
  -- The sections of `stop`, from `Close`, the heartbeat, the read goroutine, a failed `OnOpen` or a reset.
  marks : (w : System) → w.session.once ≡ false → Step w (stop_mark w)
  takes : (w : System) → w.stopper ≡ marked → Step w (stop_take w)
  shuts : (w : System) (a : ℕ) → w.stopper ≡ took a → Step w (stop_shut a w)
  calls : (w : System) (a : ℕ) → w.stopper ≡ shut a → Step w (stop_call a w)
  asks : (w : System) → w.stopper ≡ called → Step w (stop_ask w)
  -- `gc` of a read goroutine or of a failed `OnOpen`.
  collects : (w : System) → 0 < w.readers → Step w (gc w)
  enters : (w : System) → Step w (enter w)
  finishes : (w v : System) (i : ℕ) → finish i w ≡ some v → Step w v
  begins_run : (w : System) → Step w (begin_run w)
  starts_reader : (w : System) (timer : ℕ) → 0 < w.readers → Step w (start_reader timer w)
  leaves : (w : System) (k : ℕ) → 0 < w.readers → Step w (leave k w)
  -- The worker of `ResetAsync`: one runs at a time.
  requests : (w : System) → w.worker ≡ idle → Step w (reset_request w)
  resets :
      (w : System)
      → w.worker ≡ requested
      → w.session.once ≡ true
      → w.stopper ≡ rest
      → Step w (reset_take w)
  reset_shuts : (w : System) (a : ℕ) → w.worker ≡ took_life a → Step w (reset_shut a w)
  detaches :
      (w : System) (a : ℕ) → w.worker ≡ waits_readers a → w.readers ≡ 0 → Step w (reset_detach a w)
  clears :
      (w : System) (a : ℕ) → w.worker ≡ waits_tasks a → (w.lives a).wg ≡ 0 → Step w (reset_clear w)

-- A session that was just made.
unfoldable pub init_system : EndPoint → Conn → System
unfolding new_session
init_system e c = record {
  session = new_session e c;
  lives = λ a. new_session_lifecycle;
  fresh = 1;
  tasks = [];
  readers = 0;
  stopper = rest;
  worker = idle;
  closings = 0;
  reconnects = [];
}

pub data Reach (w : System) : System → Type 0 where
  here : Reach w w
  next : {u v : System} → Reach w u → Step u v → Reach w v
