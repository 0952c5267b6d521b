-- ===== src/Session/Events/Order.antt =====
-- The order of the listener's calls.
use getty.Common.{
  ℕ, ◌-◌, ◌≡◌, refl, ◌∙◌, Bool, true, none, some, List, [], ◌∷◌, ◌++◌, is_some, arith, ◌<◌,
  Option-cases, Bool-cases, inl, inr,
}
use getty.Connection.Conn.{Conn}
use getty.Session.State.{EndPoint, acquire, add_closing_task}
use getty.Session.Lifecycle.{
  System, rest, spawn, gc, stop, stop_mark, stop_take, stop_shut, stop_call, stop_ask,
  owner_to_reconnect, reset_request, reset_take, reset_shut, reset_detach, reset_clear, finish,
  enter, begin_run, start_reader, leave, listen, task_at, init_system, Step, listens, marks, takes,
  shuts, calls, asks, collects, enters, finishes, begins_run, starts_reader, leaves, requests,
  resets, reset_shuts, detaches, clears, Reach, here, next,
}
use getty.Session.Lifecycle.Invariant.{Inv, Reach-Inv}
use getty.Session.Lifecycle.Stops.{stop-again, stop-closes}
use getty.Session.Events.{
  Event, on_error, on_close, Outcome, returned, panicked, last_events, run_task, end_of_loop,
}
use getty.Session.Heartbeat.{cron, cron-closed}
use getty.Connection.Net.{Net}

-- A lifecycle that is closed, below the next address.
abbrev pub Shut : ℕ → System → Type 0
Shut a w = ((w.lives a).closed ≡ true) × (a < w.fresh)

gc-Shut : (a : ℕ) (w : System) → Shut a w → Shut a (gc w)
unfolding gc spawn add_closing_task
gc-Shut a w h = ground (arith, h)

ask-Shut : (a : ℕ) (w : System) → Shut a w → Shut a (stop_ask w)
unfolding stop_ask
ask-Shut a w h = elim (Option-cases (owner_to_reconnect w.session)) [
  | inl e ↦ ground (arith, h, e)
  | inr (c, e) ↦ ground (arith, h, e)
]

finish-Shut : (a i : ℕ) (w v : System) → finish i w ≡ some v → Shut a w → Shut a v
unfolding finish
finish-Shut a i w v e h = elim (Option-cases (task_at i w.tasks)) [
  | inl n ↦ ground (arith, h, e, n)
  | inr (t, n) ↦ ground (arith, h, e, n)
]

-- No step opens a closed lifecycle again; a reset makes a new one.
Step-Shut : (a : ℕ) {w v : System} → Step w v → Shut a w → Shut a v
unfolding stop_mark stop_take stop_shut stop_call spawn enter begin_run start_reader leave listen
    reset_request reset_take reset_shut reset_clear
Step-Shut a (listens w l) h = h
Step-Shut a (marks w o) h = h
Step-Shut a (takes w o) h = h
Step-Shut a (shuts w b o) h = ground (arith, h)
Step-Shut a (calls w b o) h = ground (arith, h)
Step-Shut a (asks w o) h = ask-Shut a w h
Step-Shut a (collects w o) h = gc-Shut a w h
Step-Shut a (enters w) h = ground (arith, h)
Step-Shut a (finishes w v k e) h = finish-Shut a k w v e h
Step-Shut a (begins_run w) h = ground (arith, h)
Step-Shut a (starts_reader w t o) h = h
Step-Shut a (leaves w k o) h = h
Step-Shut a (requests w o) h = h
Step-Shut a (resets w o p q) h = h
Step-Shut a (reset_shuts w b o) h = ground (arith, h)
Step-Shut a (detaches w b o z) h = unfold reset_detach in gc-Shut a w h
Step-Shut a (clears w b o z) h = ground (arith, h)

Reach-Shut : (a : ℕ) {w v : System} → Reach w v → Shut a w → Shut a v
Reach-Shut a here h = h
Reach-Shut a (next r st) h = Step-Shut a st (Reach-Shut a r h)

-- Neither a package nor a heartbeat that comes with the lifecycle now calls the listener or changes anything,
-- whatever other goroutines would do in between.
abbrev pub Silent : (P : Type 0) → ℕ → System → Type 0
Silent P a w =
    ((o₁ o₂ o₃ : System → System) (pkg : P) → run_task o₁ o₂ o₃ a pkg w ≡ (w, []))
    × ((net : Net) (others : System → System) (faulty : Bool)
        → cron {P = P} net others faulty a w ≡ (w, []))

closed-Silent : (P : Type 0) (a : ℕ) (w : System) → (w.lives a).closed ≡ true → Silent P a w
unfolding run_task acquire
closed-Silent P a w h =
    (λ o₁ o₂ o₃ pkg. ground (arith, h), λ net others faulty. cron-closed net others faulty a w h)

last_events-last :
    {P : Type 0} (out : Outcome) → (es : List (Event P)) × (last_events out ≡ es ++ on_close ∷ [])
unfolding last_events
last_events-last (returned (some x)) = (on_error x ∷ [], refl)
last_events-last (returned none) = ([], refl)
last_events-last panicked = ([], refl)

end_events :
    {P : Type 0} (w : System) (out : Outcome)
    → is_some w.session.listener ≡ true
    → (end_of_loop {P = P} out w).1 ≡ last_events out
unfolding end_of_loop
end_events w out h = ground (arith, h)

-- The session as `end_of_loop` counts it.
abbrev counted : System → System
counted w = record w { session = record (w.session) { gr_num = w.session.gr_num - 1 } }

stop-Shut : (w : System) → w.stopper ≡ rest → Inv w → Shut w.session.lifecycle (stop (counted w))
stop-Shut w h v = elim (Bool-cases w.session.once) [
  | inl o ↦ ground (arith, h, o, v, stop-again (counted w) o)
  | inr o ↦ ground (arith, v, stop-closes (counted w) o)
]

end_of_loop-Shut :
    (P : Type 0) (w : System) (out : Outcome)
    → w.stopper ≡ rest
    → Inv w
    → Shut w.session.lifecycle (end_of_loop {P = P} out w).0
unfolding end_of_loop
end_of_loop-Shut P w out h v = gc-Shut w.session.lifecycle (stop (counted w)) (stop-Shut w h v)

-- `OnClose` is the last call of a read loop: whatever the loop came to, a session with a listener that was reached
-- from its creation, with no other `stop` halfway, calls `OnClose` last when the loop ends. From then on, and
-- for ever, whatever steps follow, a reset included, neither a package nor a heartbeat of that lifecycle that
-- comes to its `acquire` calls the listener or changes the session; one that was let in before may still call it.
pub end_of_loop-Silent :
    {P : Type 0} (e : EndPoint) (c : Conn) (w : System) (out : Outcome)
    → Reach (init_system e c) w
    → w.stopper ≡ rest
    → is_some w.session.listener ≡ true
    → ((es : List (Event P)) × ((end_of_loop {P = P} out w).1 ≡ es ++ on_close ∷ []))
      × ((v : System) → Reach (end_of_loop {P = P} out w).0 v → Silent P w.session.lifecycle v)
end_of_loop-Silent {P} e c w out r z h =
    let (es, same) = last_events-last {P = P} out in
    let shut = end_of_loop-Shut P w out z (Reach-Inv e c r) in
    (
      (es, end_events w out h ∙ same),
      λ v q. closed-Silent P w.session.lifecycle v (Reach-Shut w.session.lifecycle q shut).0,
    )
