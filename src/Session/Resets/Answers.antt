-- ===== src/Session/Resets/Answers.antt =====
-- Each request for a reset is answered once.
use getty.Common.{
  ℕ, suc, ◌+◌, ◌≤◌, ◌<◌, ◌≡◌, refl, subst, Option, none, some, List, [], ◌∷◌, ◌++◌, ◌==◌, ltb,
  if◌then◌else◌, is_some, Option-cases, Bool-cases, inl, inr, arith,
}
use getty.Errors.{Error}
use getty.Session.Resets.{
  Resets, reset_async, try_reset, reset, answer_all, end_worker, enter_callback, leave_callback,
  Step, asks, tries, resets, ends, enters, leaves, Reach, new, next,
}

abbrev pub occurs : ℕ → List ℕ → ℕ
occurs c [] = 0
occurs c (d ∷ ds) = if d == c then suc (occurs c ds) else occurs c ds

-- How often a channel is waited for, and how often it was answered.
abbrev pub waiting : ℕ → Option (List ℕ) → ℕ
waiting c none = 0
waiting c (some cs) = occurs c cs

abbrev pub answers : ℕ → List (ℕ × Option Error) → ℕ
answers c [] = 0
answers c ((d, e) ∷ ds) = if d == c then suc (answers c ds) else answers c ds

occurs-append : (c : ℕ) (ds es : List ℕ) → occurs c (ds ++ es) ≡ occurs c ds + occurs c es
occurs-append c [] es = omega arith
occurs-append c (d ∷ ds) es = ground (arith, occurs-append c ds es)

answers-append :
    (c : ℕ) (ds es : List (ℕ × Option Error)) → answers c (ds ++ es) ≡ answers c ds + answers c es
answers-append c [] es = omega arith
answers-append c ((d, e) ∷ ds) es = ground (arith, answers-append c ds es)

answers-answer_all :
    (c : ℕ) (e : Option Error) (ds : List ℕ) → answers c (answer_all e ds) ≡ occurs c ds
unfolding answer_all
answers-answer_all c e [] = refl
answers-answer_all c e (d ∷ ds) = ground (arith, answers-answer_all c e ds)

-- Each channel that was made is waited for or was answered, once; no other is; and one worker runs exactly where
-- somebody waits.
pub record Answered (r : Resets) : Type 0 where
  pub once : (c : ℕ) → waiting c r.reset_run + answers c r.sent ≡ (if ltb c r.fresh then 1 else 0)
  pub single : r.workers ≡ (if is_some r.reset_run then 1 else 0)

reset_async-Answered : (r : Resets) → Answered r → Answered (reset_async r)
unfolding reset_async
reset_async-Answered r h = elim (Option-cases r.reset_run) [
  | inl e ↦ record { once = λ c. ground (arith, e, h.once c); single = ground (arith, e, h.single) }
  | inr (cs, e) ↦ record {
    once = λ c. ground (arith, e, h.once c, occurs-append c cs (r.fresh ∷ []));
    single = ground (arith, e, h.single);
  }
]

end_worker-Answered : (err : Option Error) (r : Resets) → Answered r → Answered (end_worker err r)
unfolding end_worker
end_worker-Answered err r h = elim (Option-cases r.reset_run) [
  | inl e ↦ record { once = λ c. ground (arith, e, h.once c); single = ground (arith, e, h.single) }
  | inr (cs, e) ↦ record {
    once = λ c. ground (
      arith,
      e,
      h.once c,
      answers-append c r.sent (answer_all err cs),
      answers-answer_all c err cs,
    );
    single = ground (arith, e, h.single);
  }
]

step-Answered : (r r' : Resets) → Step r r' → Answered r → Answered r'
unfolding try_reset reset enter_callback leave_callback
step-Answered r _ asks h = reset_async-Answered r h
step-Answered r _ tries h = elim (Bool-cases (ltb 0 r.callback_depth)) [
  | inl b ↦ subst Answered {x = r} {y = (try_reset r).1} (ground (arith, b)) h
  | inr b ↦
      subst Answered {x = reset_async r} {y = (try_reset r).1} (ground (arith, b))
        (reset_async-Answered r h)
]
step-Answered r _ resets h = reset_async-Answered r h
step-Answered r _ (ends err w) h = end_worker-Answered err r h
step-Answered r _ enters h = record { once = h.once; single = h.single }
step-Answered r _ (leaves d) h = record { once = h.once; single = h.single }

Reach-Answered : (r : Resets) → Reach r → Answered r
Reach-Answered _ new = record { once = λ c. ground arith; single = refl }
Reach-Answered _ (next {r} {r'} q t) = step-Answered r r' t (Reach-Answered r q)

-- However requests, callbacks and workers interleave: at most one worker runs, no request is answered twice, and
-- when a worker ends, with an error or without, every request that was made by then has its answer.
pub end_worker-answers :
    (r : Resets) (err : Option Error) (c : ℕ)
    → Reach r
    → c < r.fresh
    → (r.workers ≤ 1) × (answers c r.sent ≤ 1) × (answers c (end_worker err r).sent ≡ 1)
unfolding end_worker
end_worker-answers r err c q m =
    let h = Reach-Answered r q in
    let before = h.once c in
    let after = (end_worker-Answered err r h).once c in
    (
      ground (arith, h.single),
      ground (arith, before, m),
      answered (end_worker err r) (ended r.reset_run refl) (same_fresh r.reset_run refl) after,
    )
  where
    ended : (o : Option (List ℕ)) → r.reset_run ≡ o → (end_worker err r).reset_run ≡ none
    ended none e = ground (arith, e)
    ended (some cs) e = ground (arith, e)

    same_fresh : (o : Option (List ℕ)) → r.reset_run ≡ o → (end_worker err r).fresh ≡ r.fresh
    same_fresh none e = ground (arith, e)
    same_fresh (some cs) e = ground (arith, e)

    answered :
        (s : Resets)
        → s.reset_run ≡ none
        → s.fresh ≡ r.fresh
        → waiting c s.reset_run + answers c s.sent ≡ (if ltb c s.fresh then 1 else 0)
        → answers c s.sent ≡ 1
    answered s e f h = ground (arith, e, f, h, m)
