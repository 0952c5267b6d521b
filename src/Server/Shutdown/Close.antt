-- ===== src/Server/Shutdown/Close.antt =====
-- What a closed server leaves behind.
use getty.Common.{ℕ, ◌≡◌, ◌≤◌, Bool, true, false, not, ◌||◌, arith}
use getty.Server.Shutdown.{
  Phase, listening, publishing, registering, looping, Stop, running, stopped, State, init_state,
  listen, publish_test, publish, register_test, register, end_loop, stop_begin, stop_body, Step,
  listens, tests_publish, publishes, tests_register, registers, ends_loop, begins_stop, stops,
  Reach, here, next,
}

-- The phases that hold the lock, that have a listener which is not published, and the event loop.
abbrev pub holds : Phase → Bool
holds publishing = true
holds registering = true
holds _ = false

abbrev pub unpublished : Phase → Bool
unpublished listening = true
unpublished publishing = true
unpublished _ = false

abbrev pub loops : Phase → ℕ
loops looping = 1
loops _ = 0

abbrev pub is_stopped : Stop → Bool
is_stopped stopped = true
is_stopped _ = false

abbrev pub is_running : Stop → Bool
is_running running = true
is_running _ = false

pub record Inv (s : State) : Type 0 where
  pub locked : s.lock ≡ holds s.phase
  pub counted : s.wg ≡ loops s.phase
  pub tracked : s.is_open ≡ true → (s.has_listener || unpublished s.phase) ≡ true
  pub begun : s.done ≡ not (is_running s.stop)
  pub once_done : s.once ≡ s.done
  pub free : is_stopped s.stop ≡ true → s.lock ≡ false
  pub shut : is_stopped s.stop ≡ true → s.is_open ≡ true → s.phase ≡ listening

pub Step-Inv : {s t : State} → Step s t → Inv s → Inv t
unfolding listen publish_test publish register_test register end_loop stop_begin stop_body
Step-Inv (listens s e) v = ground (arith, e, v)
Step-Inv (tests_publish s e f) v = ground (arith, e, f, v)
Step-Inv (publishes s e) v = ground (arith, e, v)
Step-Inv (tests_register s e f) v = ground (arith, e, f, v)
Step-Inv (registers s e) v = ground (arith, e, v)
Step-Inv (ends_loop s e) v = ground (arith, e, v)
Step-Inv (begins_stop s) v = ground (arith, v)
Step-Inv (stops s e f) v = ground (arith, e, f, v)

init-Inv : Inv init_state
init-Inv = ground arith

init_state-Reach-Inv : {s : State} → Reach init_state s → Inv s
init_state-Reach-Inv here = init-Inv
init_state-Reach-Inv (next r st) = Step-Inv st (init_state-Reach-Inv r)

loops_after :
    {s t : State} → Step s t → Inv s → s.stop ≡ stopped → (t.stop ≡ stopped) × (t.wg ≤ s.wg)
unfolding listen publish_test publish register_test register end_loop stop_begin stop_body
loops_after (listens s e) v h = ground (arith, e, v, h)
loops_after (tests_publish s e f) v h = ground (arith, e, f, v, h)
loops_after (publishes s e) v h = ground (arith, e, v, h)
loops_after (tests_register s e f) v h = ground (arith, e, f, v, h)
loops_after (registers s e) v h = ground (arith, e, v, h)
loops_after (ends_loop s e) v h = ground (arith, e, v, h)
loops_after (begins_stop s) v h = ground (arith, v, h)
loops_after (stops s e f) v h = ground (arith, e, f, v, h)

refuses : (s : State) → Inv s → s.stop ≡ stopped → (publish_test s).is_open ≡ false
unfolding publish_test
refuses s v h = ground (arith, v, h)

-- However `Close` and `RunEventLoop` interleave: once `stop` has ended, no step starts an event loop, so
-- the wait of `Close` is for loops that there were; and no listener is left open, save one that has not
-- been published yet, which the test before its publication closes.
pub stopped_lem :
    {s t : State}
    → Reach init_state s
    → s.stop ≡ stopped
    → Step s t
    → (t.stop ≡ stopped)
      × (t.wg ≤ s.wg)
      × (s.is_open ≡ true → s.phase ≡ listening)
      × ((publish_test s).is_open ≡ false)
stopped_lem {s} r h st =
    let v = init_state-Reach-Inv r in
    let (kept, fewer) = loops_after st v h in
    (kept, fewer, v.shut (ground (arith, h)), refuses s v h)
