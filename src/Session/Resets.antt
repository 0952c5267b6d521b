-- ===== src/Session/Resets.antt =====
-- `Reset`, `TryReset` and `ResetAsync` of session.go: who asks for a reset, and which answer each one gets. What
-- the worker does is Session/Lifecycle.
pub mod Answers
use getty.Common.{
  ℕ, suc, ◌+◌, ◌-◌, ◌<◌, ◌≡◌, Bool, true, false, Option, none, some, List, [], ◌∷◌, ◌++◌, ltb,
  if◌then◌else◌,
}
use getty.Errors.{Error, reset_during_callback}

-- `resetRun` with the channels of those who asked, `callbackDepth`, and the workers that run. A channel is a
-- number below `fresh`; `sent` holds the results that channels were given, each of which closes its channel.
pub record Resets : Type 0 where
  pub reset_run : Option (List ℕ)
  pub callback_depth : ℕ
  pub workers : ℕ
  pub fresh : ℕ
  pub sent : List (ℕ × Option Error)

abbrev pub init_resets : Resets
init_resets = record { reset_run = none; callback_depth = 0; workers = 0; fresh = 0; sent = [] }

-- `ResetAsync`; the channel that it returns is the `fresh` one.
unfoldable pub reset_async : Resets → Resets
reset_async r = elim r.reset_run [
  | some results ↦ record r { reset_run = some (results ++ r.fresh ∷ []); fresh = suc r.fresh }
  | none ↦ record r {
    reset_run = some (r.fresh ∷ []);
    workers = suc r.workers;
    fresh = suc r.fresh;
  }
]

-- What `TryReset` returns at once, or the channel that it waits for.
pub data Tried : Type 0 where
  returned : Error → Tried
  waits_for : ℕ → Tried

unfoldable pub try_reset : Resets → Tried × Resets
unfolding reset_async
try_reset r =
    if ltb 0 r.callback_depth
    then (returned reset_during_callback, r)
    else (waits_for r.fresh, reset_async r)

-- `Reset`: it asks in any case, and waits only where no callback was active.
unfoldable pub reset : Resets → Option ℕ × Resets
unfolding reset_async
reset r = (if ltb 0 r.callback_depth then none else some r.fresh, reset_async r)

-- The loop over the results.
unfoldable pub answer_all : Option Error → List ℕ → List (ℕ × Option Error)
answer_all e [] = []
answer_all e (c ∷ cs) = (c, e) ∷ answer_all e cs

-- The deferred function of the worker: `err` is the panic of `reset`, or nil.
unfoldable pub end_worker : Option Error → Resets → Resets
unfolding answer_all
end_worker err r = elim r.reset_run [
  | none ↦ record r { workers = r.workers - 1 }
  | some results ↦ record r {
    reset_run = none;
    workers = r.workers - 1;
    sent = r.sent ++ answer_all err results;
  }
]

-- `invokeCallback`, at its start and at its end.
unfoldable pub enter_callback : Resets → Resets
enter_callback r = record r { callback_depth = suc r.callback_depth }

unfoldable pub leave_callback : Resets → Resets
leave_callback r = record r { callback_depth = r.callback_depth - 1 }

pub data Step : Resets → Resets → Type 0 where
  asks : {r : Resets} → Step r (reset_async r)
  tries : {r : Resets} → Step r (try_reset r).1
  resets : {r : Resets} → Step r (reset r).1
  ends : {r : Resets} (err : Option Error) → 0 < r.workers → Step r (end_worker err r)
  enters : {r : Resets} → Step r (enter_callback r)
  leaves : {r : Resets} → 0 < r.callback_depth → Step r (leave_callback r)

pub data Reach : Resets → Type 0 where
  new : Reach init_resets
  next : {r r' : Resets} → Reach r → Step r r' → Reach r'
