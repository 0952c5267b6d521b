-- ===== src/Echo/Server/Bound.antt =====
-- The number of sessions that the echo server admits, against its `SessionNumber`.
use getty.Common.{
  ℕ, suc, ◌+◌, ◌-◌, ◌≤◌, ◌<◌, ◌≡◌, Bool, true, false, Option, some, List, [], ◌∷◌, ◌==◌,
  if◌then◌else◌, length, Option-cases, inl, inr, u32, arith,
}
use getty.Errors.{Error}
use getty.Echo.{Package}
use getty.Echo.Server.{
  Handler, delete, assign, lookup, remove_opening, open_check, open_insert, on_close, on_message,
}

abbrev pub elem : ℕ → List ℕ → Bool
elem s [] = false
elem s (t ∷ ts) = if s == t then true else elem s ts

-- The critical sections. At most `loops` calls of `OnOpen` run at a time: each event loop makes one, and there
-- is one for each port.
pub data Step (number loops : ℕ) : Handler → Handler → Type 0 where
  check :
      {h : Handler} (s : ℕ)
      → length h.opening < loops
      → Step number loops h (open_check number s h).1
  insert : {h : Handler} (s : ℕ) → elem s h.opening ≡ true → Step number loops h (open_insert s h)
  close : {h : Handler} (s : ℕ) → Step number loops h (on_close s h)
  message :
      {h : Handler} (write_pkg : Package → Option Error) (s : ℕ) (p : Package)
      → Step number loops h (on_message write_pkg s p h).1

pub data Reach (number loops : ℕ) : Handler → Type 0 where
  new : Reach number loops (record { session_map = []; opening = [] })
  step : {h h' : Handler} → Reach number loops h → Step number loops h h' → Reach number loops h'

delete-le : (s : ℕ) (m : List (ℕ × ℕ)) → length (delete s m) ≤ length m
unfolding delete
delete-le s [] = omega arith
delete-le s ((t, n) ∷ m) = ground (arith, delete-le s m)

assign-le : (s v : ℕ) (m : List (ℕ × ℕ)) → length (assign s v m) ≤ suc (length m)
unfolding assign
assign-le s v [] = omega arith
assign-le s v ((t, n) ∷ m) = ground (arith, assign-le s v m)

assign-known :
    (s v n : ℕ) (m : List (ℕ × ℕ)) → lookup s m ≡ some n → length (assign s v m) ≡ length m
unfolding assign lookup
assign-known s v n [] h = cc
assign-known s v n ((t, k) ∷ m) h = ground (arith, h, assign-known s v n m)

on_message-length :
    (write_pkg : Package → Option Error) (s : ℕ) (p : Package) (h : Handler)
    → (length (on_message write_pkg s p h).1.session_map ≡ length h.session_map)
      × ((on_message write_pkg s p h).1.opening ≡ h.opening)
unfolding on_message
on_message-length w s p h = elim (Option-cases (lookup s h.session_map)) [
  | inl e ↦ ground (arith, e)
  | inr (n, e) ↦ ground (arith, e, assign-known s (u32 (n + 1)) n h.session_map e)
]

abbrev Bounded : ℕ → ℕ → Handler → Type 0
Bounded number loops h =
    (length h.session_map + length h.opening ≤ number + loops - 1) × (length h.opening ≤ loops)

length-remove_opening :
    (s : ℕ) (ts : List ℕ) → elem s ts ≡ true → suc (length (remove_opening s ts)) ≡ length ts
unfolding remove_opening
length-remove_opening s [] h = cc
length-remove_opening s (t ∷ ts) h = ground (arith, h, length-remove_opening s ts)

step-Bounded :
    (number loops : ℕ) (h h' : Handler)
    → Step number loops h h'
    → Bounded number loops h
    → Bounded number loops h'
unfolding open_check open_insert on_close
step-Bounded number loops h _ (check s few) b = ground (arith, few, b.0, b.1)
step-Bounded number loops h _ (insert s there) b =
    ground (arith, assign-le s 0 h.session_map, length-remove_opening s h.opening there, b.0, b.1)
step-Bounded number loops h _ (close s) b = ground (arith, delete-le s h.session_map, b.0, b.1)
step-Bounded number loops h _ (message w s p) b =
    ground (arith, on_message-length w s p h, b.0, b.1)

Reach-Bounded : (number loops : ℕ) (h : Handler) → Reach number loops h → Bounded number loops h
Reach-Bounded number loops _ new = (omega arith, omega arith)
Reach-Bounded number loops _ (step {h} {h'} r t) =
    step-Bounded number loops h h' t (Reach-Bounded number loops h r)

-- `OnOpen` checks the number of sessions and inserts under two locks. Whatever interleaving of its
-- halves with the other handlers: a server with one event loop never holds more sessions than
-- `SessionNumber`, and with each further loop, that is, with each further port, at most one more.
pub session_map-le :
    (number loops : ℕ) (h : Handler)
    → Reach number loops h
    → length h.session_map ≤ number + loops - 1
session_map-le number loops h r = omega (arith, (Reach-Bounded number loops h r).0)
