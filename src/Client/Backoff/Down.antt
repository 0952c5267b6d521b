-- ===== src/Client/Backoff/Down.antt =====
-- A pass while no connection can be made.
use getty.Common.{
  ℕ, zero, suc, ◌+◌, ◌-◌, ◌*◌, ◌^◌, ◌<◌, ◌≡◌, refl, sym, ◌∙◌, ap, false, Option, none, some, List,
  [], ◌∷◌, ◌++◌, leb, ltb, if◌then◌else◌, arith, append_assoc, append-nil, inl, inr, Bool-cases,
  Option-cases,
}
use native.Mathlib.Nat.{mul-le-mul_right}
use getty.Options.{ClientOptions}
use getty.Client.Pool.{World, Client, session_num, prune, is_active}
use getty.Client.Backoff.{
  interval, max_attempts, backoff, max_back_off_times, Env, Pass, is_full, gives_up, loop,
  reconnect,
}
use getty.Client.Backoff.Attempts.{max_attempts-pos, next_lost}

-- The calls of `connect` fail and leave the client open and short of sessions, and so does what the other
-- goroutines do in between.
abbrev pub IsShort : ClientOptions → World → Type 0
IsShort o w = (w.client.done ≡ false) × ((is_full o w).1 ≡ false)

abbrev pub IsDown : Env → ClientOptions → Type 0
IsDown env o =
    ((n : ℕ) (w : World)
      → IsShort o w
      → ((env.connect n w).1 ≡ false) × IsShort o (env.connect n w).0)
    × ((n : ℕ) (w : World) → IsShort o w → IsShort o (env.rest n w))

-- The waits behind the failures from `i` on: the interval times the number of the failure, at most 10.
abbrev pub waits_from : ClientOptions → ℕ → ℕ → List ℕ
waits_from o i zero = []
waits_from o i (suc n) =
    ((if ltb max_back_off_times i then max_back_off_times else i) * interval o)
    ∷ waits_from o (i + 1) n

abbrev pub counts : Pass → ℕ × ℕ × List ℕ
counts p = (p.dials, p.wins, p.waits)

prune-again : (w : World) (m : List ℕ) → prune w (prune w m) ≡ prune w m
unfolding prune
prune-again w [] = refl
prune-again w (a ∷ m) = elim (Bool-cases (is_active w a)) [
  | inl on ↦ ground (arith, on, prune-again w m)
  | inr off ↦ ground (arith, off, prune-again w m)
]

prune-client : (w : World) (c : Client) (m : List ℕ) → prune (record w { client = c }) m ≡ prune w m
unfolding prune is_active
prune-client w c [] = refl
prune-client w c (a ∷ m) = ground (arith, prune-client w c m)

is_full-IsShort : (o : ClientOptions) (w : World) → IsShort o w → IsShort o (is_full o w).0
unfolding is_full session_num
is_full-IsShort o w (on, short) = elim (Option-cases w.client.ss_map) [
  | inl e ↦ ground (arith, e, on, short)
  | inr (m, e) ↦ ground (
    arith,
    e,
    on,
    short,
    prune-again w m,
    prune-client w (record (w.client) { ss_map = some (prune w m) }) (prune w m),
  )
]

-- One turn of the loop that fails.
turn-lost :
    (env : Env) (o : ClientOptions) (fuel attempts : ℕ) (p : Pass)
    → attempts < max_attempts o
    → IsDown env o
    → IsShort o p.world
    → (loop env o (suc fuel) attempts p ≡ (
        if leb (max_attempts o) (attempts + 1)
        then some (record p {
          world = (gives_up o (attempts + 1) (env.connect p.dials (is_full o p.world).0).0).0;
          dials = p.dials + 1;
        })
        else loop env o fuel (attempts + 1) (next_lost env o attempts p)))
      × IsShort o (next_lost env o attempts p).world
unfolding loop gives_up
turn-lost env o fuel attempts p h (dials, rests) short =
    let counted = is_full-IsShort o p.world short in
    let (lost, tried) = dials p.dials (is_full o p.world).0 counted in
    let failed = is_full-IsShort o (env.connect p.dials (is_full o p.world).0).0 tried in
    let rested = rests p.dials (is_full o (env.connect p.dials (is_full o p.world).0).0).0 failed in
    ground (arith, short, lost, tried, failed, rested)

-- The product of a back-off fits a word.
abbrev pub Fits : ClientOptions → Type 0
Fits o = max_back_off_times * interval o < 2 ^ 63

wait-Fits : (o : ClientOptions) (i : ℕ) → Fits o → backoff o i ∷ [] ≡ waits_from o i 1
unfolding backoff
wait-Fits o i h = elim (Bool-cases (ltb max_back_off_times i)) [
  | inl more ↦ ground (arith, more, h)
  | inr few ↦ ground (
    arith,
    few,
    h,
    mul-le-mul_right {m = i} {n = max_back_off_times} (interval o) (ground (arith, few)),
  )
]

abbrev pub ended : Option Pass → Option (ℕ × ℕ × List ℕ)
ended none = none
ended (some p) = some (counts p)

loop-down :
    (env : Env) (o : ClientOptions) (left attempts : ℕ) (p : Pass)
    → attempts + suc left ≡ max_attempts o
    → IsDown env o
    → Fits o
    → IsShort o p.world
    → ended (loop env o (suc left) attempts p)
      ≡ some (p.dials + suc left, p.wins, p.waits ++ waits_from o (attempts + 1) left)
loop-down env o zero attempts p h down fits short =
    let (e, _) = turn-lost env o 0 attempts p (omega arith) down short in
    ground (arith, e, append-nil p.waits)
loop-down env o (suc left) attempts p h down fits short =
    let (e, rest) = turn-lost env o (suc left) attempts p (omega arith) down short in
    ground (
      arith,
      e,
      wait-Fits o (attempts + 1) fits,
      loop-down env o left (attempts + 1) (next_lost env o attempts p) (omega arith) down fits rest,
      append_assoc p.waits (backoff o (attempts + 1) ∷ []) (waits_from o (attempts + 2) left),
    )

reconnect_lem :
    (env : Env) (fuel : ℕ) (w : World)
    → reconnect env fuel w
      ≡ loop env w.client.opts fuel 0 (record { world = w; dials = 0; wins = 0; waits = [] })
unfolding reconnect
reconnect_lem env fuel w = refl

-- While no connection can be made, a pass makes exactly as many attempts as the options allow (50 where
-- they say nothing), and waits behind each but the last: the interval times the number of the failure,
-- and ten times the interval from the tenth on. As many turns are enough. The options
-- are ones for which ten times the interval fits a duration (`Fits`).
pub reconnect-down :
    (env : Env) (w : World)
    → IsDown env w.client.opts
    → IsShort w.client.opts w
    → Fits w.client.opts
    → ended (reconnect env (max_attempts w.client.opts) w)
      ≡ some (
        max_attempts w.client.opts,
        0,
        waits_from w.client.opts 1 (max_attempts w.client.opts - 1),
      )
reconnect-down env w down short fits =
    let o = w.client.opts in
    let start : Pass = record { world = w; dials = 0; wins = 0; waits = [] } in
    let enough : suc (max_attempts o - 1) ≡ max_attempts o = ground (arith, max_attempts-pos o) in
    let closed =
      loop-down env o (max_attempts o - 1) 0 start (ground (arith, enough)) down fits short in
    ap ended (reconnect_lem env (max_attempts o) w)
    ∙ ap (λ m. ended (loop env o m 0 start)) (sym enough)
    ∙ closed
    ∙ ground (arith, enough)
