-- ===== src/Session/Lifecycle/Invariant.antt =====
-- The invariant of the lifecycle: the counter of the session's lifecycle counts its goroutines, and no
-- goroutine holds another lifecycle.
use getty.Common.{
  ℕ, zero, suc, ◌<◌, ◌≡◌, refl, inl, inr, true, false, none, some, List, [], ◌∷◌, ◌==◌,
  if◌then◌else◌, length, arith, Option-cases,
}
use mathlib.Core.Path.{subst}
use getty.Connection.Conn.{Conn}
use getty.Session.State.{EndPoint}
use getty.Session.Lifecycle.{
  Task, Stopper, rest, marked, took, shut, called, Worker, idle, requested, took_life,
  waits_readers, waits_tasks, System, spawn, stop_mark, stop_take, stop_shut, stop_call, stop_ask,
  owner_to_reconnect, gc, reset_request, reset_take, reset_shut, reset_detach, reset_clear,
  drop_task, task_at, finish, enter, begin_run, start_reader, leave, listen, Step, listens, marks,
  takes, shuts, calls, asks, collects, enters, finishes, begins_run, starts_reader, leaves,
  requests, resets, reset_shuts, detaches, clears, init_system, Reach, here, next,
}

-- The tasks of a list that hold another lifecycle.
pub foreign : ℕ → List Task → ℕ
foreign a [] = 0
foreign a (t ∷ ts) = let rest = foreign a ts in if t.life == a then rest else suc rest

-- What a stop has done at each point.
abbrev pub At : Stopper → System → Type 0
At rest w =
    (w.session.done ≡ true → (w.lives w.session.lifecycle).closed ≡ true)
    × (w.session.done ≡ true → w.session.heartbeat_timer ≡ none)
    × (w.closings ≡ (if w.session.done then 1 else 0))
At marked w = (w.session.done ≡ true) × (w.closings ≡ 0)
At (took a) w =
    (w.session.done ≡ true)
    × (w.closings ≡ 0)
    × (a ≡ w.session.lifecycle)
    × (w.session.heartbeat_timer ≡ none)
At (shut a) w =
    (w.session.done ≡ true)
    × (w.closings ≡ 0)
    × (a ≡ w.session.lifecycle)
    × (w.session.heartbeat_timer ≡ none)
    × ((w.lives w.session.lifecycle).closed ≡ true)
At called w =
    (w.session.done ≡ true)
    × (w.closings ≡ 1)
    × (w.session.heartbeat_timer ≡ none)
    × ((w.lives w.session.lifecycle).closed ≡ true)

-- A reset whose `stop` has returned holds the session's lifecycle, and the session is closed, with no stop
-- halfway.
abbrev pub Holds : Worker → System → Type 0
Holds idle w = Unit {0}
Holds requested w = Unit {0}
Holds (took_life a) w = (a ≡ w.session.lifecycle) × (w.session.done ≡ true) × (w.stopper ≡ rest)
Holds (waits_readers a) w = (a ≡ w.session.lifecycle) × (w.session.done ≡ true) × (w.stopper ≡ rest)
Holds (waits_tasks a) w =
    (a ≡ w.session.lifecycle)
    × (w.session.done ≡ true)
    × (w.stopper ≡ rest)
    × (w.session.connection ≡ none)
    × (w.readers ≡ 0)

pub record Inv (w : System) : Type 0 where
  pub counted : (w.lives w.session.lifecycle).wg ≡ length w.tasks
  pub current : foreign w.session.lifecycle w.tasks ≡ 0
  pub old : w.session.lifecycle < w.fresh
  pub once_done : w.session.once ≡ w.session.done
  pub staged : At w.stopper w
  pub detached : w.session.attrs ≡ none → w.session.connection ≡ none
  pub holds : Holds w.worker w

stop_mark-Inv : (w : System) → w.session.once ≡ false → Inv w → Inv (stop_mark w)
unfolding stop_mark
stop_mark-Inv w h v = ground arith

stop_take-Inv : (w : System) → w.stopper ≡ marked → Inv w → Inv (stop_take w)
unfolding stop_take
stop_take-Inv w h v = ground arith

stop_shut-Inv : (w : System) (a : ℕ) → w.stopper ≡ took a → Inv w → Inv (stop_shut a w)
unfolding stop_shut
stop_shut-Inv w a h v = ground arith

stop_call-Inv : (w : System) (a : ℕ) → w.stopper ≡ shut a → Inv w → Inv (stop_call a w)
unfolding stop_call spawn foreign
stop_call-Inv w a h v = ground arith

stop_ask-Inv : (w : System) → w.stopper ≡ called → Inv w → Inv (stop_ask w)
unfolding stop_ask
stop_ask-Inv w h v = elim (Option-cases (owner_to_reconnect w.session)) [
  | inl e ↦ ground (arith, e)
  | inr (c, e) ↦ ground (arith, e)
]

gc-Inv : (w : System) → Inv w → Inv (gc w)
unfolding gc foreign
gc-Inv w v = ground arith

enter-Inv : (w : System) → Inv w → Inv (enter w)
unfolding enter foreign
enter-Inv w v = ground arith

begin_run-Inv : (w : System) → Inv w → Inv (begin_run w)
unfolding begin_run
begin_run-Inv w v = ground arith

start_reader-Inv : (t : ℕ) (w : System) → 0 < w.readers → Inv w → Inv (start_reader t w)
unfolding start_reader
start_reader-Inv t w h v = ground arith

leave-Inv : (k : ℕ) (w : System) → Inv w → Inv (leave k w)
unfolding leave
leave-Inv k w v = ground arith

init_system-Inv : (e : EndPoint) (c : Conn) → Inv (init_system e c)
unfolding init_system foreign
init_system-Inv e c = ground arith

pub drop_task-foreign :
    (i a : ℕ) (ts : List Task) (t : Task)
    → task_at i ts ≡ some t
    → foreign a ts ≡ 0
    → (t.life ≡ a) × (foreign a (drop_task i ts) ≡ 0) × (length ts ≡ suc (length (drop_task i ts)))
unfolding task_at drop_task foreign
drop_task-foreign i a [] t h z = cc
drop_task-foreign zero a (x ∷ ts) t h z = ground arith
drop_task-foreign (suc i) a (x ∷ ts) t h z = ground (arith, drop_task-foreign i a ts t)

finish-Inv : (i : ℕ) (w v : System) → finish i w ≡ some v → Inv w → Inv v
unfolding finish
finish-Inv i w v h k = elim (Option-cases (task_at i w.tasks)) [
  | inl e ↦ let same : w ≡ v = ground arith in subst Inv same k
  | inr (t, e) ↦
      let (life, f, l) = drop_task-foreign i w.session.lifecycle w.tasks t e k.current in
      ground (arith, life, f, l)
]

reset_request-Inv : (w : System) → w.worker ≡ idle → Inv w → Inv (reset_request w)
unfolding reset_request
reset_request-Inv w h v = ground arith

reset_take-Inv :
    (w : System) → w.session.once ≡ true → w.stopper ≡ rest → Inv w → Inv (reset_take w)
unfolding reset_take
reset_take-Inv w o h v = ground arith

reset_shut-Inv : (w : System) (a : ℕ) → w.worker ≡ took_life a → Inv w → Inv (reset_shut a w)
unfolding reset_shut
reset_shut-Inv w a h v = ground arith

reset_detach-Inv :
    (a : ℕ) (w : System)
    → w.worker ≡ waits_readers a
    → w.readers ≡ 0
    → Inv w
    → Inv (reset_detach a w)
unfolding reset_detach gc foreign
reset_detach-Inv a w h z v = ground arith

pub no_tasks : (ts : List Task) → length ts ≡ 0 → ts ≡ []
no_tasks [] h = refl
no_tasks (t ∷ ts) h = absurd (omega arith)

reset_clear-Inv :
    (w : System) (a : ℕ)
    → w.worker ≡ waits_tasks a
    → (w.lives a).wg ≡ 0
    → Inv w
    → Inv (reset_clear w)
unfolding reset_clear foreign
reset_clear-Inv w a h z v = ground (arith, no_tasks w.tasks)

listen-Inv : (l : ℕ) (w : System) → Inv w → Inv (listen l w)
unfolding listen
listen-Inv l w v = ground arith

-- Every step of the session, of its goroutines and of a reset keeps the invariant.
pub Step-Inv : {w v : System} → Step w v → Inv w → Inv v
Step-Inv (listens w l) i = listen-Inv l w i
Step-Inv (marks w h) i = stop_mark-Inv w h i
Step-Inv (takes w h) i = stop_take-Inv w h i
Step-Inv (shuts w a h) i = stop_shut-Inv w a h i
Step-Inv (calls w a h) i = stop_call-Inv w a h i
Step-Inv (asks w h) i = stop_ask-Inv w h i
Step-Inv (collects w h) i = gc-Inv w i
Step-Inv (enters w) i = enter-Inv w i
Step-Inv (finishes w v k h) i = finish-Inv k w v h i
Step-Inv (begins_run w) i = begin_run-Inv w i
Step-Inv (starts_reader w t h) i = start_reader-Inv t w h i
Step-Inv (leaves w k h) i = leave-Inv k w i
Step-Inv (requests w h) i = reset_request-Inv w h i
Step-Inv (resets w h o z) i = reset_take-Inv w o z i
Step-Inv (reset_shuts w a h) i = reset_shut-Inv w a h i
Step-Inv (detaches w a h z) i = reset_detach-Inv a w h z i
Step-Inv (clears w a h z) i = reset_clear-Inv w a h z i

-- In every interleaving of a session's steps, in which `stop` and a reset take one section of their code at a
-- time, from its creation and through any number of resets: the counter of its lifecycle is the number of its
-- goroutines, which all hold that lifecycle. Where no stop is halfway, a closed session has a closed
-- lifecycle, no heartbeat timer, and has started its close callbacks once, and an open one has not; halfway, the
-- session is closed, and the timer, the lifecycle and the callbacks follow in this order. A detached session
-- has no connection. A reset whose `stop` has returned holds the session's lifecycle, with the session closed
-- and no stop halfway, and, once it has detached the connection, no reader runs.
pub Reach-Inv : (e : EndPoint) (c : Conn) {w : System} → Reach (init_system e c) w → Inv w
Reach-Inv e c here = init_system-Inv e c
Reach-Inv e c (next r st) = Step-Inv st (Reach-Inv e c r)
