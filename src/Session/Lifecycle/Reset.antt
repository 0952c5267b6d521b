-- ===== src/Session/Lifecycle/Reset.antt =====
-- What a reset waits for, that it ends, and what a closed session refuses.
use getty.Common.{
  ℕ, zero, suc, ◌≡◌, refl, ◌∙◌, inl, inr, ◌≢◌, false, none, some, List, [], ◌∷◌, length, arith,
  Option-cases,
}
use getty.Connection.Conn.{Conn}
use getty.Session.State.{EndPoint}
use getty.Session.Lifecycle.{
  Task, idle, waits_tasks, System, reset_clear, drop_task, finish, task_at, Step, clears, finishes,
  init_system, Reach, here, next,
}
use getty.Session.Lifecycle.Invariant.{Inv, Reach-Inv, Step-Inv, no_tasks, drop_task-foreign}

finish_of_Inv : (w : System) (i : ℕ) → Inv w → finish i w ≢ none
unfolding finish
finish_of_Inv w i v = elim (Option-cases (task_at i w.tasks)) [
  | inl h ↦ λ x. ground (arith, h, x)
  | inr (t, h) ↦
      let (life, f, l) = drop_task-foreign i w.session.lifecycle w.tasks t h v.current in
      λ x. ground (arith, life, l, h, x)
]

-- No interleaving makes a goroutine count the lifecycle below zero: the end of one never panics.
pub finish-ne-none :
    (e : EndPoint) (c : Conn) (w : System) (i : ℕ) → Reach (init_system e c) w → finish i w ≢ none
finish-ne-none e c w i r = finish_of_Inv w i (Reach-Inv e c r)

-- When the worker clears the fields, nothing of the session runs: no goroutine holds a lifecycle, no
-- reader runs, and the connection was detached.
pub reset_clear-quiet :
    (e : EndPoint) (c : Conn) (w : System) (a : ℕ)
    → Reach (init_system e c) w
    → w.worker ≡ waits_tasks a
    → (w.lives a).wg ≡ 0
    → (w.tasks ≡ []) × (w.readers ≡ 0) × (w.session.connection ≡ none)
reset_clear-quiet e c w a r h z = let v = Reach-Inv e c r in ground (arith, v, no_tasks w.tasks)

then-Reach : {w v u : System} → Step w v → Reach v u → Reach w u
then-Reach st here = next here st
then-Reach st (next r t) = next (then-Reach st r) t

finish_tasks :
    (w v : System) (ts : List Task) (n : ℕ)
    → w.tasks ≡ ts
    → length w.tasks ≡ suc n
    → finish 0 w ≡ some v
    → (length v.tasks ≡ n) × (v.worker ≡ w.worker)
unfolding finish task_at drop_task
finish_tasks w v [] n same l e = ground arith
finish_tasks w v (t ∷ ts) n same l e = ground arith

-- The first goroutine of the list ends.
finish_first :
    (w : System) (n : ℕ)
    → length w.tasks ≡ suc n
    → Inv w
    → (v : System) × (finish 0 w ≡ some v) × ((length v.tasks ≡ n) × (v.worker ≡ w.worker))
finish_first w n l v = elim (Option-cases (finish 0 w)) [
  | inl e ↦ absurd (finish_of_Inv w 0 v e)
  | inr (u, e) ↦ (u, e, finish_tasks w u w.tasks n refl l e)
]

reset_ends_from :
    (n a : ℕ) (w : System)
    → length w.tasks ≡ n
    → w.worker ≡ waits_tasks a
    → Inv w
    → (v : System) × Reach w v × (v.worker ≡ idle) × (v.session.done ≡ false) × (v.tasks ≡ [])
unfolding reset_clear
reset_ends_from zero a w l h v =
    let z : (w.lives a).wg ≡ 0 = ground (arith, v) in
    (reset_clear w, next here (clears w a h z), refl, refl, no_tasks w.tasks l)
reset_ends_from (suc n) a w l h v =
    let (u, e, (l', h')) = finish_first w n l v in
    let st = finishes w u 0 e in
    let (x, r, free, open_, none_left) = reset_ends_from n a u l' (h' ∙ h) (Step-Inv st v) in
    (x, then-Reach st r, free, open_, none_left)

-- A reset that waits for the lifecycle is never stuck: as the goroutines that hold the lifecycle end,
-- it comes to a session that is open again, with no goroutine of the old one left.
pub reset_ends :
    (e : EndPoint) (c : Conn) (w : System) (a : ℕ)
    → Reach (init_system e c) w
    → w.worker ≡ waits_tasks a
    → (v : System) × Reach w v × (v.worker ≡ idle) × (v.session.done ≡ false) × (v.tasks ≡ [])
reset_ends e c w a r h = reset_ends_from (length w.tasks) a w refl h (Reach-Inv e c r)
