-- ===== src/Callbacks/Chain.antt =====
-- The list that a chain of pointers makes, and what writes to the heap do to it.
use getty.Common.{
  ℕ, zero, suc, ◌+◌, ◌<◌, ◌≤◌, ◌≡◌, ◌≢◌, refl, ◌∙◌, ap, ◌&&◌, Option, none, some, List, [], ◌∷◌,
  ◌++◌, if◌then◌else◌, length, get_elem?, set, arith,
}
use getty.Callbacks.{Key, key_eq, Node, Search, absent, found, search_from, invoke_from}

module _ {A : Type 0} where
  pub get_elem?-lt : (xs : List A) (i : ℕ) (x : A) → get_elem? xs i ≡ some x → i < length xs
  get_elem?-lt [] i x h = cc
  get_elem?-lt (y ∷ xs) zero x h = omega arith
  get_elem?-lt (y ∷ xs) (suc i) x h = omega (arith, get_elem?-lt xs i x h)

  pub get_elem?-append :
      (xs ys : List A) (i : ℕ) (x : A) → get_elem? xs i ≡ some x → get_elem? (xs ++ ys) i ≡ some x
  get_elem?-append [] ys i x h = cc
  get_elem?-append (y ∷ xs) ys zero x h = h
  get_elem?-append (y ∷ xs) ys (suc i) x h = get_elem?-append xs ys i x h

  pub get_elem?-length : (xs : List A) (x : A) → get_elem? (xs ++ x ∷ []) (length xs) ≡ some x
  get_elem?-length [] x = refl
  get_elem?-length (y ∷ xs) x = get_elem?-length xs x

  pub get_elem?-set_ne :
      (xs : List A) (i j : ℕ) (v : A) → i ≢ j → get_elem? (set xs j v) i ≡ get_elem? xs i
  get_elem?-set_ne [] i j v h = refl
  get_elem?-set_ne (y ∷ xs) zero zero v h = absurd (h refl)
  get_elem?-set_ne (y ∷ xs) zero (suc j) v h = refl
  get_elem?-set_ne (y ∷ xs) (suc i) zero v h = refl
  get_elem?-set_ne (y ∷ xs) (suc i) (suc j) v h =
      get_elem?-set_ne xs i j v (λ e. h (ap (λ n. suc n) e))

  pub get_elem?-set :
      (xs : List A) (i : ℕ) (v x : A) → get_elem? xs i ≡ some x → get_elem? (set xs i v) i ≡ some v
  get_elem?-set [] i v x h = cc
  get_elem?-set (y ∷ xs) zero v x h = refl
  get_elem?-set (y ∷ xs) (suc i) v x h = get_elem?-set xs i v x h

  pub length-set : (xs : List A) (i : ℕ) (v : A) → length (set xs i v) ≡ length xs
  length-set [] i v = refl
  length-set (y ∷ xs) zero v = refl
  length-set (y ∷ xs) (suc i) v = ap (λ n. suc n) (length-set xs i v)

-- Nodes with their addresses.
abbrev pub Placed : Type 0
Placed = List (ℕ × Node)

-- From the pointer on, the heap holds these nodes, each at a higher address than the one before it.
abbrev pub Chain : List Node → ℕ → Option ℕ → Placed → Type 0
Chain ns lo p [] = p ≡ none
Chain ns lo p ((a, n) ∷ xs) =
    (p ≡ some a) × (lo ≤ a) × (get_elem? ns a ≡ some n) × Chain ns (suc a) n.next xs

pub Chain-length :
    (ns : List Node) (lo : ℕ) (p : Option ℕ) (xs : Placed)
    → Chain ns lo p xs
    → lo ≤ length ns
    → lo + length xs ≤ length ns
Chain-length ns lo p [] c h = omega arith
Chain-length ns lo p ((a, n) ∷ xs) (_, le, at, rest) h =
    let lt = get_elem?-lt ns a n at in
    omega (arith, Chain-length ns (suc a) n.next xs rest (omega arith))

pub Chain-set :
    (ns : List Node) (lo : ℕ) (p : Option ℕ) (xs : Placed) (b : ℕ) (v : Node)
    → b < lo
    → Chain ns lo p xs
    → Chain (set ns b v) lo p xs
Chain-set ns lo p [] b v h c = c
Chain-set ns lo p ((a, n) ∷ xs) b v h (e, le, at, rest) = (
  e,
  le,
  get_elem?-set_ne ns a b v (λ x. ground (arith, x)) ∙ at,
  Chain-set ns (suc a) n.next xs b v (omega arith) rest,
)

pub Chain-append :
    (ns ms : List Node) (lo : ℕ) (p : Option ℕ) (xs : Placed)
    → Chain ns lo p xs
    → Chain (ns ++ ms) lo p xs
Chain-append ns ms lo p [] c = c
Chain-append ns ms lo p ((a, n) ∷ xs) (e, le, at, rest) =
    (e, le, get_elem?-append ns ms a n at, Chain-append ns ms (suc a) n.next xs rest)

pub Chain-weaken :
    (ns : List Node) (lo lo' : ℕ) (p : Option ℕ) (xs : Placed)
    → lo' ≤ lo
    → Chain ns lo p xs
    → Chain ns lo' p xs
Chain-weaken ns lo lo' p [] h c = c
Chain-weaken ns lo lo' p ((a, n) ∷ xs) h (e, le, at, rest) = (e, omega arith, at, rest)

-- The search, on the list of nodes.
unfoldable pub find : Option ℕ → Placed → Key → Key → Search
find prev [] h k = absent
find prev ((a, n) ∷ xs) h k =
    let rest = find (some a) xs h k in
    if key_eq n.handler h && key_eq n.key k then found prev a n else rest

pub search_from-find :
    (fuel : ℕ) (ns : List Node) (lo : ℕ) (prev p : Option ℕ) (xs : Placed) (h k : Key)
    → Chain ns lo p xs
    → length xs ≤ fuel
    → search_from fuel ns prev p h k ≡ find prev xs h k
unfolding search_from find
search_from-find fuel ns lo prev p [] h k c f = rw (c, search_from) refl
search_from-find zero ns lo prev p ((a, n) ∷ xs) h k c f = absurd (omega arith)
search_from-find (suc fuel) ns lo prev p ((a, n) ∷ xs) h k (e, le, at, rest) f =
    ground
      (arith, e, at, search_from-find fuel ns (suc a) (some a) n.next xs h k rest (omega arith))

-- The functions of a list of nodes.
unfoldable pub calls : Placed → List ℕ
calls [] = []
calls ((a, n) ∷ xs) = let cs = calls xs in elim n.call [ none ↦ cs | some c ↦ c ∷ cs ]

pub invoke_from-calls :
    (fuel : ℕ) (ns : List Node) (lo : ℕ) (p : Option ℕ) (xs : Placed)
    → Chain ns lo p xs
    → length xs ≤ fuel
    → invoke_from fuel ns p ≡ some (calls xs)
unfolding invoke_from calls
invoke_from-calls fuel ns lo p [] c f = rw (c, invoke_from) refl
invoke_from-calls zero ns lo p ((a, n) ∷ xs) c f = absurd (omega arith)
invoke_from-calls (suc fuel) ns lo p ((a, n) ∷ xs) (e, le, at, rest) f =
    ground (arith, e, at, invoke_from-calls fuel ns (suc a) n.next xs rest (omega arith))
