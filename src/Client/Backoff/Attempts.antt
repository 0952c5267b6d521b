-- ===== src/Client/Backoff/Attempts.antt =====
-- A pass of `reConnect` ends.
use getty.Common.{
  ℕ, zero, suc, ◌+◌, ◌<◌, ◌≤◌, ◌≡◌, true, false, [], ◌∷◌, ◌++◌, leb, arith, is_some, inl, inr,
  Bool-cases,
}
use getty.Options.{ClientOptions}
use getty.Client.Pool.{World}
use getty.Client.Backoff.{max_attempts, backoff, Env, Pass, is_full, gives_up, loop, reconnect}

-- The turns that are enough for a pass with `d` more successes ahead.
abbrev pub budget : ℕ → ℕ → ℕ
budget zero m = m
budget (suc d) m = m + budget d m

pub max_attempts-pos : (o : ClientOptions) → 0 < max_attempts o
unfolding max_attempts
max_attempts-pos o = ground arith

budget-le : (d m : ℕ) → m ≤ budget d m
budget-le zero m = ground arith
budget-le (suc d) m = ground (arith, budget-le d m)

-- From the `k`-th call on, `connect` fails.
abbrev pub FailsFrom : Env → ℕ → Type 0
FailsFrom env k = (n : ℕ) (w : World) → k ≤ n → (env.connect n w).1 ≡ false

abbrev next_won : Env → ClientOptions → Pass → Pass
next_won env o p = record p {
  world = (env.connect p.dials (is_full o p.world).0).0;
  dials = p.dials + 1;
  wins = p.wins + 1;
}

abbrev pub next_lost : Env → ClientOptions → ℕ → Pass → Pass
next_lost env o attempts p = record p {
  world =
      env.rest p.dials (gives_up o (attempts + 1) (env.connect p.dials (is_full o p.world).0).0).0;
  dials = p.dials + 1;
  waits = p.waits ++ (backoff o (attempts + 1) ∷ []);
}

loop-won :
    (env : Env) (o : ClientOptions) (fuel attempts : ℕ) (p : Pass)
    → (env.connect p.dials (is_full o p.world).0).1 ≡ true
    → is_some (loop env o fuel 0 (next_won env o p)) ≡ true
    → is_some (loop env o (suc fuel) attempts p) ≡ true
unfolding loop
loop-won env o fuel attempts p won h = ground (arith, won, h)

loop-lost :
    (env : Env) (o : ClientOptions) (fuel attempts : ℕ) (p : Pass)
    → (env.connect p.dials (is_full o p.world).0).1 ≡ false
    → (suc attempts < max_attempts o
        → is_some (loop env o fuel (attempts + 1) (next_lost env o attempts p)) ≡ true)
    → is_some (loop env o (suc fuel) attempts p) ≡ true
unfolding loop gives_up
loop-lost env o fuel attempts p lost h = elim (Bool-cases (leb (max_attempts o) (attempts + 1))) [
  | inl last ↦ ground (arith, lost, last)
  | inr more ↦ ground (arith, lost, more, h (ground (arith, more)))
]

loop-ends :
    (env : Env) (o : ClientOptions) (k : ℕ)
    → FailsFrom env k
    → (fuel attempts d : ℕ) (p : Pass) → k ≤ p.dials + d
    → attempts < max_attempts o
    → budget d (max_attempts o) ≤ fuel + attempts
    → is_some (loop env o fuel attempts p) ≡ true
loop-ends env o k fails zero attempts d p hk ha hb = ground (arith, budget-le d (max_attempts o))
loop-ends env o k fails (suc fuel) attempts zero p hk ha hb =
    loop-lost env o fuel attempts p (fails p.dials (is_full o p.world).0 (ground (arith, hk)))
      (λ more.
        loop-ends env o k fails fuel (attempts + 1) zero (next_lost env o attempts p) (omega arith)
          (omega arith) (omega arith))
loop-ends env o k fails (suc fuel) attempts (suc d) p hk ha hb =
    elim (Bool-cases (env.connect p.dials (is_full o p.world).0).1) [
      | inl won ↦ loop-won env o fuel attempts p won (
          loop-ends env o k fails fuel 0 d (next_won env o p) (omega arith) (max_attempts-pos o)
            (omega arith))
      | inr lost ↦ loop-lost env o fuel attempts p lost (λ more.
          loop-ends env o k fails fuel (attempts + 1) (suc d) (next_lost env o attempts p)
            (omega arith) (omega arith) (omega arith))
    ]

-- A pass returns when connecting stops to succeed: if no call of `connect` from the one with number `k` on
-- succeeds, then turns for `k + 1` full rows of attempts are enough for `reConnect` to end, whatever the
-- other goroutines do in between.
pub reconnect-ends :
    (env : Env) (k : ℕ) (w : World)
    → FailsFrom env k
    → is_some (reconnect env (budget k (max_attempts w.client.opts)) w) ≡ true
unfolding reconnect
reconnect-ends env k w fails =
    loop-ends env w.client.opts k fails (budget k (max_attempts w.client.opts)) 0 k _ (omega arith)
      (max_attempts-pos w.client.opts) (omega arith)
