-- ===== src/Client/Reconnect/Flight.antt =====
-- The invariant of a client: the pool stays within its bounds, one loop runs at a time, and no request
-- is lost.
use getty.Common.{
  ℕ, ◌+◌, ◌<◌, ◌≤◌, ◌≡◌, refl, ◌∙◌, ◌⊎◌, inl, inr, Bool-cases, true, none, some, if◌then◌else◌,
  arith, Option-cases, List, [], ◌∷◌,
}
use getty.Constants.{EndPointType}
use getty.Options.{ClientOption}
use getty.Session.Lifecycle.{System}
use getty.Client.Pool.{
  World, Client, session_num, admit, new_client, prune, reject_all, update_session, reject,
}
use getty.Client.Pool
use getty.Client.Pool.Admission.{Inv, new_client-Inv, session_num-Inv, admit-Inv, stop-Inv}
use getty.Client.Reconnect.{
  State, start_session, run_reconnect, turn, end_pass, close, Step, triggers, turns, counts, starts,
  admits, ends_pass, session_runs, closes, init_state, Reach, here, next,
}

-- The flag of the client tells of its one loop, and a request waits only where a loop will see it.
pub record Flight (t : State) : Type 0 where
  pub pool : Inv t.world.client
  pub single : t.at_top + t.in_pass ≡ (if t.world.client.reconnect_done then 1 else 0)
  pub served : t.world.client.reconnect_pending ≡ true → t.world.client.reconnect_done ≡ true

-- What the critical sections of the pool leave alone.
abbrev Kept : Client → Client → Type 0
Kept c d = (c.reconnect_done ≡ d.reconnect_done) × (c.reconnect_pending ≡ d.reconnect_pending)

session_num-Kept : (w : World) → Kept (session_num w).0.client w.client
unfolding session_num
session_num-Kept w = elim (Option-cases w.client.ss_map) [
  | inl e ↦ ground (arith, e)
  | inr (m, e) ↦ ground (arith, e)
]

admit-Kept : (a : ℕ) (w : World) → Kept (admit a w).0.client w.client
unfolding admit
admit-Kept a w = elim (Option-cases w.client.ss_map) [
  | inl e ↦ ground (arith, e)
  | inr (m, e) ↦ ground (arith, e)
]

reject_all-Kept : (m : List ℕ) (w : World) → Kept (reject_all m w).client w.client
unfolding reject_all
reject_all-Kept [] w = (refl, refl)
reject_all-Kept (a ∷ m) w = reject_all-Kept m (update_session a reject w)

stop-Kept : (w : World) → Kept (Pool.stop w).client w.client
unfolding Pool.stop
stop-Kept w = elim (Option-cases w.client.ss_map) [
  | inl e ↦ ground (arith, e)
  | inr (m, e) ↦ ground (
    arith,
    e,
    reject_all-Kept m
        (record w { client = record (w.client) { once = true; done = true; ss_map = none } }),
  )
]

run_reconnect-Flight : (t : State) → Flight t → Flight (run_reconnect t).0
unfolding run_reconnect
run_reconnect-Flight t f = ground arith

turn-Flight : (t : State) → 0 < t.at_top → Flight t → Flight (turn t)
unfolding turn
turn-Flight t h f = ground arith

move :
    (t : State) (w : World)
    → Inv w.client
    → Kept w.client t.world.client
    → Flight t
    → Flight (record t { world = w })
move t w v (done, pending) f = ground (arith, done, pending)

pub Step-Flight : {t u : State} → Step t u → Flight t → Flight u
unfolding end_pass close start_session
Step-Flight (triggers t) f = run_reconnect-Flight t f
Step-Flight (turns t h) f = turn-Flight t h f
Step-Flight (counts t h) f =
    move t (session_num t.world).0 (session_num-Inv t.world f.pool) (session_num-Kept t.world) f
Step-Flight (starts t d h) f = move t (start_session d t.world) f.pool (refl, refl) f
Step-Flight (admits t a h) f =
    move t (admit a t.world).0 (admit-Inv a t.world f.pool) (admit-Kept a t.world) f
Step-Flight (ends_pass t h) f = ground arith
Step-Flight (session_runs t a s st) f =
    move t (update_session a (λ _. s) t.world) f.pool (refl, refl) f
Step-Flight (closes t) f =
    move t (Pool.stop t.world) (stop-Inv t.world f.pool) (stop-Kept t.world) f

start-Flight :
    (kind : EndPointType) (opts : List ClientOption) (id : ℕ) {c : Client} (ss : ℕ → System)
    → new_client kind opts id ≡ some c
    → Flight (init_state c ss)
unfolding new_client
start-Flight kind opts id ss e = ground (arith, e, new_client-Inv kind opts id e)

-- From a new client on, whatever its goroutines do and in whatever order: the pool holds at most as many
-- sessions as the connection number and none after a close, at most one reconnect loop exists, exactly
-- when `reconnectDone` is set, and a pending request has a loop to serve it.
pub Reach-Flight :
    (kind : EndPointType) (opts : List ClientOption) (id : ℕ) {c : Client} (ss : ℕ → System)
    {t : State}
    → new_client kind opts id ≡ some c
    → Reach (init_state c ss) t
    → Flight t
Reach-Flight kind opts id ss e here = start-Flight kind opts id ss e
Reach-Flight kind opts id ss e (next r st) = Step-Flight st (Reach-Flight kind opts id ss e r)

abbrev pub IsPending : State → Type 0
IsPending t = t.world.client.reconnect_pending ≡ true

abbrev pub IsClosed : State → Type 0
IsClosed t = t.world.client.done ≡ true

keep :
    (t : State) (w : World)
    → Kept w.client t.world.client
    → IsPending t
    → IsPending (record t { world = w })
keep t w (_, e) p = e ∙ p

-- A step keeps a request, or serves it.
kept_by_step :
    {t u : State} → Step t u → IsPending t → IsPending u ⊎ (u.in_pass ≡ t.in_pass + 1) ⊎ IsClosed t
unfolding end_pass close start_session run_reconnect turn
kept_by_step (triggers t) p = ground (arith, p)
kept_by_step (turns t h) p = ground (arith, p)
kept_by_step (counts t h) p = inl (keep t (session_num t.world).0 (session_num-Kept t.world) p)
kept_by_step (starts t d h) p = inl p
kept_by_step (admits t a h) p = inl (keep t (admit a t.world).0 (admit-Kept a t.world) p)
kept_by_step (ends_pass t h) p = inl p
kept_by_step (session_runs t a s st) p = inl p
kept_by_step (closes t) p = inl (keep t (Pool.stop t.world) (stop-Kept t.world) p)

session_num-done : (w : World) → (session_num w).0.client.done ≡ w.client.done
unfolding session_num
session_num-done w = elim (Option-cases w.client.ss_map) [
  | inl e ↦ ground (arith, e)
  | inr (m, e) ↦ ground (arith, e)
]

admit-done : (a : ℕ) (w : World) → (admit a w).0.client.done ≡ w.client.done
unfolding admit
admit-done a w = elim (Option-cases w.client.ss_map) [
  | inl e ↦ ground (arith, e)
  | inr (m, e) ↦ ground (arith, e)
]

stop_again : (w : World) → Inv w.client → w.client.done ≡ true → Pool.stop w ≡ w
unfolding Pool.stop
stop_again w v d = ground (arith, v.once_done, d)

-- After a close the client stays closed, and no step starts a loop: their number never grows, and a loop
-- that comes back to its critical section ends there.
pub no_loop_starts :
    {t u : State}
    → Step t u
    → Flight t
    → IsClosed t
    → IsClosed u
      × (u.at_top + u.in_pass ≤ t.at_top + t.in_pass)
      × (u.in_pass ≤ t.in_pass)
      × (0 < t.at_top → (turn t).at_top < t.at_top)
unfolding end_pass close start_session run_reconnect turn
no_loop_starts (triggers t) f d = ground (arith, d)
no_loop_starts (turns t h) f d = ground (arith, d)
no_loop_starts (counts t h) f d = ground (arith, d, session_num-done t.world)
no_loop_starts (starts t x h) f d = ground (arith, d)
no_loop_starts (admits t a h) f d = ground (arith, d, admit-done a t.world)
no_loop_starts (ends_pass t h) f d = ground (arith, d)
no_loop_starts (session_runs t a s st) f d = ground (arith, d)
no_loop_starts (closes t) f d = ground (arith, d, stop_again t.world f.pool d)

request_made : (t : State) → IsPending (run_reconnect t).0 ⊎ IsClosed (run_reconnect t).0
unfolding run_reconnect
request_made t = elim (Bool-cases t.world.client.done) [
  | inl d ↦ inr (ground (arith, d))
  | inr d ↦ elim (Bool-cases t.world.client.reconnect_done) [
    | inl r ↦ inl (ground (arith, d, r))
    | inr r ↦ inl (ground (arith, d, r))
  ]
]

-- A pass of `reConnect` has started on the way.
pub PassStarted : {t u : State} → Reach t u → Type 0
PassStarted here = ⊥
PassStarted (next {u = v} {v = u} r st) = PassStarted r ⊎ (u.in_pass ≡ v.in_pass + 1)

Reach-Flight_from : {t u : State} → Reach t u → Flight t → Flight u
Reach-Flight_from here f = f
Reach-Flight_from (next r st) f = Step-Flight st (Reach-Flight_from r f)

kept_from :
    {t u : State}
    → (r : Reach t u) → Flight t
    → IsPending t ⊎ IsClosed t
    → IsPending u ⊎ (PassStarted r ⊎ IsClosed u)
unfolding PassStarted
kept_from here f (inl p) = inl p
kept_from here f (inr d) = inr (inr d)
kept_from (next r st) f p = elim (kept_from r f p) [
  | inl q ↦ elim (kept_by_step st q) [
    | inl k ↦ inl k
    | inr (inl k) ↦ inr (inl (inr k))
    | inr (inr d) ↦ inr (inr (no_loop_starts st (Reach-Flight_from r f) d).0)
  ]
  | inr (inl k) ↦ inr (inl (inl k))
  | inr (inr d) ↦ inr (inr (no_loop_starts st (Reach-Flight_from r f) d).0)
]

-- No request to connect again is lost: behind any `runReconnect`, whether a loop runs or not, and after any steps
-- of any goroutines, the request is pending, a pass has started since, or the client is closed. The client is in a
-- state that its goroutines can have brought it to.
pub request_kept :
    (kind : EndPointType) (opts : List ClientOption) (id : ℕ) {c : Client} (ss : ℕ → System)
    {t u : State}
    → new_client kind opts id ≡ some c
    → Reach (init_state c ss) t
    → (r : Reach (run_reconnect t).0 u) → IsPending u ⊎ (PassStarted r ⊎ IsClosed u)
request_kept kind opts id ss {t} e q r =
    kept_from r (run_reconnect-Flight t (Reach-Flight kind opts id ss e q)) (request_made t)
