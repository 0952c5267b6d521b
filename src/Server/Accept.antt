-- ===== src/Server/Accept.antt =====
-- The accept loop: no connection is leaked, and how the back-off grows.
use getty.Common.{
  subst, min, ◌<◌, ℕ, zero, suc, ◌+◌, ◌*◌, ◌^◌, ◌≤◌, ◌≡◌, refl, ◌∙◌, Bool, false, List, [], ◌∷◌,
  ◌++◌, ◌==◌, ltb, if◌then◌else◌, arith, inl, inr, Bool-cases,
}
use native.Mathlib.Nat.{mul-le-mul_right, two-pow-succ, one-le-pow}
use getty.Server.{
  Accepted, failed, self_connect, refused, taken, Acceptor, init_acceptor, next_delay, accept,
  back_off, run_tcp_event_loop,
}

-- How often a connection is in a list.
pub count : ℕ → List ℕ → ℕ
count a [] = 0
count a (b ∷ m) = let rest = count a m in if a == b then suc rest else rest

-- The longest wait of a list.
pub longest : List ℕ → ℕ
longest [] = 0
longest (d ∷ ds) = let rest = longest ds in if ltb rest d then d else rest

longest-snoc :
    (ds : List ℕ) (d : ℕ)
    → longest ds ≤ 1000000000
    → d ≤ 1000000000
    → longest (ds ++ d ∷ []) ≤ 1000000000
unfolding longest
longest-snoc [] d h k = ground (arith, k)
longest-snoc (c ∷ ds) d h k = ground (arith, h, k, longest-snoc ds d)

-- Each connection that `Accept` gave is closed or has a session that runs; no wait is above a second.
pub record Kept (a : Acceptor) : Type 0 where
  pub owned : (c : ℕ) → count c a.given ≡ count c a.closed + count c a.running
  pub capped : a.delay ≤ 1000000000
  pub patient : longest a.waits ≤ 1000000000

accept-Kept : (x : Accepted) (a : Acceptor) → Kept a → Kept (accept x a)
unfolding accept next_delay count
accept-Kept failed a h = record {
  owned = h.owned;
  capped = ground (arith, h.capped);
  patient = h.patient;
}
accept-Kept (self_connect d) a h = record {
  owned = λ c. ground (arith, h.owned c);
  capped = ground (arith, h.capped);
  patient = h.patient;
}
accept-Kept (refused d) a h = record {
  owned = λ c. ground (arith, h.owned c);
  capped = ground (arith, h.capped);
  patient = h.patient;
}
accept-Kept (taken d) a h = record {
  owned = λ c. ground (arith, h.owned c);
  capped = omega arith;
  patient = h.patient;
}

back_off-Kept : (a : Acceptor) → Kept a → Kept (back_off a)
unfolding back_off
back_off-Kept a h = elim (Bool-cases (a.delay == 0)) [
  | inl e ↦ subst Kept (ground (arith, e)) h
  | inr e ↦ subst Kept (ground (arith, e)) (record {
    owned = h.owned;
    capped = h.capped;
    patient = longest-snoc a.waits a.delay h.patient h.capped;
  })
]

loop-Kept :
    (closed woken : ℕ → Bool) (calls : ℕ → Accepted) (k : ℕ) (a : Acceptor)
    → Kept a
    → Kept (run_tcp_event_loop closed woken calls k a)
unfolding run_tcp_event_loop
loop-Kept closed woken calls zero a h = h
loop-Kept closed woken calls (suc k) a h =
    let waited = back_off-Kept a h in
    let rest =
      loop-Kept closed woken calls k (accept (calls k) (back_off a))
        (accept-Kept (calls k) (back_off a) waited) in
    ground (arith, h, waited, rest)

-- Whatever `Accept` gives and the callback answers, and whenever the server is closed: the loop leaks no
-- connection, since each one that it was given is closed or has a session that runs, once for each
-- time, and it never waits for more than a second.
pub run_tcp_event_loop-Kept :
    (closed woken : ℕ → Bool) (calls : ℕ → Accepted) (k : ℕ)
    → Kept (run_tcp_event_loop closed woken calls k init_acceptor)
unfolding count longest
run_tcp_event_loop-Kept closed woken calls k =
    loop-Kept closed woken calls k init_acceptor
      (record { owned = λ c. refl; capped = omega arith; patient = omega arith })

abbrev pub never : ℕ → Bool
never k = false

abbrev pub all_fail : ℕ → Accepted
all_fail k = failed

ladder : ℕ → ℕ → ℕ
ladder zero d = d
ladder (suc n) d = ladder n (next_delay d)

loop-ladder :
    (n : ℕ) (a : Acceptor) → (run_tcp_event_loop never never all_fail n a).delay ≡ ladder n a.delay
unfolding run_tcp_event_loop accept back_off ladder
loop-ladder zero a = refl
loop-ladder (suc n) a = ground (arith, loop-ladder n (accept failed (back_off a)))

pow_double : (n : ℕ) → 2 ^ suc n ≡ 2 * 2 ^ n
pow_double n = two-pow-succ n ∙ omega arith

pow_one : (n : ℕ) → 1 ≤ 2 ^ n
pow_one n = one-le-pow n 2 (omega arith)

ladder_lem : (n d : ℕ) → 0 < d → d ≤ 1000000000 → ladder n d ≡ min (d * 2 ^ n) 1000000000
unfolding ladder next_delay
ladder_lem zero d h k = omega arith
ladder_lem (suc n) d h k =
    let p = 2 ^ n in
    let double : 2 ^ suc n ≡ 2 * p = pow_double n in
    let one : 1 ≤ p = pow_one n in
    let e₂ : d * (2 * p) ≡ d * 2 * p = omega arith in
    elim (Bool-cases (ltb 1000000000 (d * 2))) [
      | inl e ↦ ground (
        arith,
        e,
        double,
        one,
        e₂,
        ladder_lem n 1000000000 (omega arith) (omega arith),
        mul-le-mul_right {m = 1000000000} {n = d * 2} p (ground (arith, e)),
      )
      | inr e ↦
          ground (arith, e, double, e₂, h, ladder_lem n (d * 2) (omega arith) (ground (arith, e)))
    ]

-- While `Accept` keeps failing, the delay behind n + 1 failures is 5 ms doubled n times, or one second
-- where that is more.
run_tcp_event_loop-failing :
    (n : ℕ)
    → (run_tcp_event_loop never never all_fail (suc n) init_acceptor).delay
      ≡ min (5000000 * 2 ^ n) 1000000000
unfolding run_tcp_event_loop accept back_off next_delay
run_tcp_event_loop-failing n =
    loop-ladder n (accept failed (back_off init_acceptor))
    ∙ ladder_lem n 5000000 (omega arith) (omega arith)
