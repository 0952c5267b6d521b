-- ===== src/Callbacks/Refine.antt =====
-- The linked list against a list of registrations, without nodes and pointers.
use getty.Common.{
  ℕ, suc, ◌≡◌, refl, sym, ◌∙◌, Bool, ◌&&◌, Option, none, some, List, [], ◌∷◌, if◌then◌else◌, length,
  arith, Bool-cases, Option-cases, inl, inr,
}
use getty.Callbacks.{Key, key_eq, Node, Callbacks, absent, found, drop_last, empty}
use getty.Callbacks.Chain.{Placed, Chain, find, calls}
use getty.Callbacks.Edit.{find_miss, matches, replace, last_of, push, last_of-le, unlink_after}

-- A registration: its handler, its key, and its function, where it has one.
abbrev pub Entry : Type 0
Entry = Key × Key × Option ℕ

abbrev pub is_for : Key → Key → Entry → Bool
is_for h k (h', k', c) = key_eq h' h && key_eq k' k

-- Add at the end, or replace the function where handler and key are registered.
unfoldable pub upsert : Key → Key → ℕ → List Entry → List Entry
upsert h k c [] = (h, k, some c) ∷ []
upsert h k c ((h', k', d) ∷ es) =
    let rest = upsert h k c es in
    if key_eq h' h && key_eq k' k then (h', k', some c) ∷ es else (h', k', d) ∷ rest

unfoldable pub erase : Key → Key → List Entry → List Entry
erase h k [] = []
erase h k ((h', k', d) ∷ es) =
    let rest = erase h k es in if key_eq h' h && key_eq k' k then es else (h', k', d) ∷ rest

-- The functions of the registrations, in order.
unfoldable pub functions : List Entry → List ℕ
functions [] = []
functions ((h, k, none) ∷ es) = functions es
functions ((h, k, some c) ∷ es) = c ∷ functions es

unfoldable pub entries : Placed → List Entry
entries [] = []
entries ((a, n) ∷ xs) = (n.handler, n.key, n.call) ∷ entries xs

-- The linked list stands for a list of registrations.
pub record Refines (t : Callbacks) (es : List Entry) : Type 0 where
  pub nodes : Placed
  pub chain : Chain t.nodes 0 t.first nodes
  pub last : t.last ≡ last_of none nodes
  pub counted : t.cb_num ≡ length nodes
  pub same : entries nodes ≡ es

pub empty-Refines : Refines empty []
unfolding empty entries
empty-Refines = record { nodes = []; chain = refl; last = refl; counted = refl; same = refl }

pub calls-functions : (xs : Placed) → calls xs ≡ functions (entries xs)
unfolding calls functions entries
calls-functions [] = refl
calls-functions ((a, n) ∷ xs) = elim (Option-cases n.call) [
  | inl e ↦ ground (arith, e, calls-functions xs)
  | inr (c, e) ↦ ground (arith, e, calls-functions xs)
]

pub replace-entries :
    (prev : Option ℕ) (xs : Placed) (h k : Key) (c : ℕ) (q : Option ℕ) (b : ℕ) (m : Node)
    → find prev xs h k ≡ found q b m
    → (entries (replace h k c xs) ≡ upsert h k c (entries xs))
      × (length (replace h k c xs) ≡ length xs)
unfolding find replace upsert entries
replace-entries prev [] h k c q b m f = cc
replace-entries prev ((a, n) ∷ xs) h k c q b m f = elim (Bool-cases (matches n h k)) [
  | inl hit ↦ ground (arith, hit)
  | inr miss ↦ ground (arith, miss, f, replace-entries (some a) xs h k c q b m)
]

pub replace-last_of :
    (d : Option ℕ) (xs : Placed) (h k : Key) (c : ℕ) → last_of d (replace h k c xs) ≡ last_of d xs
unfolding replace
replace-last_of d [] h k c = refl
replace-last_of d ((a, n) ∷ xs) h k c = elim (Bool-cases (matches n h k)) [
  | inl hit ↦ ground (arith, hit)
  | inr miss ↦ ground (arith, miss, replace-last_of (some a) xs h k c)
]

pub push-entries :
    (prev : Option ℕ) (xs : Placed) (h k : Key) (c new : ℕ)
    → find prev xs h k ≡ absent
    → let v : Node = record { handler = h; key = k; call = some c; next = none } in
      (entries (push new v xs) ≡ upsert h k c (entries xs))
      × (length (push new v xs) ≡ suc (length xs))
unfolding find upsert entries
push-entries prev [] h k c new f = (refl, refl)
push-entries prev ((a, n) ∷ []) h k c new f = elim (Bool-cases (matches n h k)) [
  | inl hit ↦ ground (arith, hit, f)
  | inr miss ↦ ground (arith, miss)
]
push-entries prev ((a, n) ∷ x ∷ xs) h k c new f = elim (Bool-cases (matches n h k)) [
  | inl hit ↦ ground (arith, hit, f)
  | inr miss ↦ ground (arith, miss, f, push-entries (some a) (x ∷ xs) h k c new)
]

pub push-last_of :
    (d : Option ℕ) (xs : Placed) (new : ℕ) (v : Node) → last_of d (push new v xs) ≡ some new
push-last_of d [] new v = refl
push-last_of d ((a, n) ∷ []) new v = refl
push-last_of d ((a, n) ∷ x ∷ xs) new v = push-last_of (some a) (x ∷ xs) new v

pub unlink-entries :
    (a : ℕ) (n : Node) (xs : Placed) (h k : Key) (q : Option ℕ) (b : ℕ) (m : Node)
    → find (some a) xs h k ≡ found q b m
    → (entries (unlink_after h k a n xs) ≡ (n.handler, n.key, n.call) ∷ erase h k (entries xs))
      × (length (unlink_after h k a n xs) ≡ length xs)
unfolding find unlink_after erase entries
unlink-entries a n [] h k q b m f = cc
unlink-entries a n ((a', n') ∷ xs) h k q b m f = elim (Bool-cases (matches n' h k)) [
  | inl hit ↦ ground (arith, hit)
  | inr miss ↦ ground (arith, miss, f, unlink-entries a' n' xs h k q b m)
]

pub drop_above :
    (ns : List Node) (a : ℕ) (p : Option ℕ) (xs : Placed) (q : Option ℕ)
    → Chain ns (suc a) p xs
    → drop_last (last_of (some a) xs) a q ≡ last_of q xs
unfolding drop_last
drop_above ns a p [] q ch = ground arith
drop_above ns a p ((b, m) ∷ xs) q ch =
    let (z, eq, above) = last_of-le ns (suc a) p b m xs ch in ground (arith, eq, above)

pub unlink-last_of :
    (ns : List Node) (lo : ℕ) (p : Option ℕ) (a : ℕ) (n : Node) (xs : Placed) (h k : Key)
    (q : Option ℕ) (b : ℕ) (m : Node)
    → Chain ns lo p ((a, n) ∷ xs)
    → find (some a) xs h k ≡ found q b m
    → (d : Option ℕ) → last_of d (unlink_after h k a n xs) ≡ drop_last (last_of (some a) xs) b q
unfolding find unlink_after
unlink-last_of ns lo p a n [] h k q b m ch f d = cc
unlink-last_of ns lo p a n ((a', n') ∷ xs) h k q b m (e, le, at, rest) f d =
    elim (Bool-cases (matches n' h k)) [
      | inl hit ↦
          let (_, _, _, tail) = rest in
          ground (arith, hit, f, drop_above ns a' n'.next xs (some a) tail)
      | inr miss ↦ ground (
        arith,
        miss,
        unlink-last_of ns (suc a) n.next a' n' xs h k q b m rest
            (sym (find_miss (some a) a' n' xs h k miss) ∙ f) (some a),
      )
    ]
