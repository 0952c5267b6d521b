-- ===== src/Callbacks/Edit.antt =====
-- The three edits of a chain: a new call, a new node at the end, and a node unlinked.
use getty.Common.{
  ℕ, suc, ◌≤◌, ◌≡◌, ◌≢◌, refl, sym, ◌∙◌, ap, subst, Bool, true, false, ◌&&◌, Option, none, some,
  List, [], ◌∷◌, ◌++◌, if◌then◌else◌, length, get_elem?, set, arith, Bool-cases, inl, inr,
}
use getty.Callbacks.{Key, key_eq, Node, Search, absent, found, fault}
use getty.Callbacks.Chain.{
  get_elem?-lt, get_elem?-append, get_elem?-length, get_elem?-set_ne, get_elem?-set, length-set,
  Placed, Chain, Chain-set, Chain-weaken, find,
}

abbrev pub matches : Node → Key → Key → Bool
matches n h k = key_eq n.handler h && key_eq n.key k

-- `cb.call = callback` on the node that the search finds.
unfoldable pub replace : Key → Key → ℕ → Placed → Placed
replace h k c [] = []
replace h k c ((a, n) ∷ xs) =
    let rest = replace h k c xs in
    if matches n h k then (a, record n { call = some c }) ∷ xs else (a, n) ∷ rest

-- What a search found.
abbrev pub pieces : Node → Search → Option ℕ × ℕ × Node
pieces d absent = (none, 0, d)
pieces d (found q b m) = (q, b, m)
pieces d fault = (none, 0, d)

pub find_hit :
    (prev : Option ℕ) (a : ℕ) (n : Node) (xs : Placed) (h k : Key)
    → matches n h k ≡ true
    → find prev ((a, n) ∷ xs) h k ≡ found prev a n
unfolding find
find_hit prev a n xs h k hit = rw (hit, find) refl

pub find_miss :
    (prev : Option ℕ) (a : ℕ) (n : Node) (xs : Placed) (h k : Key)
    → matches n h k ≡ false
    → find prev ((a, n) ∷ xs) h k ≡ find (some a) xs h k
unfolding find
find_miss prev a n xs h k miss = rw (miss, find) refl

replace_hit :
    (a : ℕ) (n : Node) (xs : Placed) (h k : Key) (c : ℕ)
    → matches n h k ≡ true
    → replace h k c ((a, n) ∷ xs) ≡ (a, record n { call = some c }) ∷ xs
unfolding replace
replace_hit a n xs h k c hit = ground (arith, hit)

replace_miss :
    (a : ℕ) (n : Node) (xs : Placed) (h k : Key) (c : ℕ)
    → matches n h k ≡ false
    → replace h k c ((a, n) ∷ xs) ≡ (a, n) ∷ replace h k c xs
unfolding replace
replace_miss a n xs h k c miss = ground (arith, miss)

-- The result of replacing at an address.
abbrev Replaced : List Node → ℕ → Option ℕ → ℕ → Placed → ℕ × Node → Type 0
Replaced ns lo p c ys (b, m) = Chain (set ns b (record m { call = some c })) lo p ys × (lo ≤ b)

replace_first :
    (ns : List Node) (lo : ℕ) (p : Option ℕ) (a : ℕ) (n : Node) (xs : Placed) (c : ℕ)
    → Chain ns lo p ((a, n) ∷ xs)
    → Replaced ns lo p c ((a, record n { call = some c }) ∷ xs) (a, n)
replace_first ns lo p a n xs c (e, le, at, rest) = (
  (
    e,
    le,
    get_elem?-set ns a (record n { call = some c }) n at,
    Chain-set ns (suc a) n.next xs a (record n { call = some c }) (omega arith) rest,
  ),
  le,
)

replace_later :
    (ns : List Node) (lo : ℕ) (p : Option ℕ) (a : ℕ) (n : Node) (ys : Placed) (c b : ℕ) (m : Node)
    → p ≡ some a
    → lo ≤ a
    → get_elem? ns a ≡ some n
    → Replaced ns (suc a) n.next c ys (b, m)
    → Replaced ns lo p c ((a, n) ∷ ys) (b, m)
replace_later ns lo p a n ys c b m e le at (tail, above) =
    let apart : a ≢ b = λ x. ground (arith, x, above) in
    ((e, le, get_elem?-set_ne ns a b (record m { call = some c }) apart ∙ at, tail), omega arith)

pub replace-Chain :
    (ns : List Node) (lo : ℕ) (prev p : Option ℕ) (xs : Placed) (h k : Key) (c : ℕ) (q : Option ℕ)
    (b : ℕ) (m : Node)
    → Chain ns lo p xs
    → find prev xs h k ≡ found q b m
    → Replaced ns lo p c (replace h k c xs) (b, m)
unfolding find
replace-Chain ns lo prev p [] h k c q b m ch f = cc
replace-Chain ns lo prev p ((a, n) ∷ xs) h k c q b m (e, le, at, rest) f =
    elim (Bool-cases (matches n h k)) [
      | inl hit ↦
          let same : (a, n) ≡ (b, m) =
            ap (λ s. ((pieces n s).1, (pieces n s).2)) (sym (find_hit prev a n xs h k hit) ∙ f) in
          subst (λ ys. Replaced ns lo p c ys (b, m)) (sym (replace_hit a n xs h k c hit))
            (subst (Replaced ns lo p c ((a, record n { call = some c }) ∷ xs)) same
              (replace_first ns lo p a n xs c (e, le, at, rest)))
      | inr miss ↦
          subst (λ ys. Replaced ns lo p c ys (b, m)) (sym (replace_miss a n xs h k c miss))
            (replace_later ns lo p a n (replace h k c xs) c b m e le at (
              replace-Chain ns (suc a) (some a) n.next xs h k c q b m rest
                (sym (find_miss prev a n xs h k miss) ∙ f)))
    ]

-- The address of the last node, or another address where there is none.
abbrev pub last_of : Option ℕ → Placed → Option ℕ
last_of d [] = d
last_of d ((a, n) ∷ xs) = last_of (some a) xs

-- `t.last.next = newItem`, and the new node.
abbrev pub push : ℕ → Node → Placed → Placed
push new v [] = (new, v) ∷ []
push new v ((a, n) ∷ []) = (a, record n { next = some new }) ∷ (new, v) ∷ []
push new v ((a, n) ∷ x ∷ xs) = (a, n) ∷ push new v (x ∷ xs)

-- Pushing behind the last node of a chain that has one.
pub push-Chain :
    (ns : List Node) (lo : ℕ) (p : Option ℕ) (a : ℕ) (n : Node) (xs : Placed) (v : Node)
    → Chain ns lo p ((a, n) ∷ xs)
    → v.next ≡ none
    → (b : ℕ) × (w : Node) × (last_of (some a) xs ≡ some b)
      × (get_elem? ns b ≡ some w)
      × (lo ≤ b)
      × Chain
          (set ns b (record w { next = some (length ns) }) ++ v ∷ [])
          lo
          p
          (push (length ns) v ((a, n) ∷ xs))
push-Chain ns lo p a n [] v (e, le, at, rest) h =
    let n' : Node = record n { next = some (length ns) } in
    let lt = get_elem?-lt ns a n at in
    let placed : get_elem? (set ns a n' ++ v ∷ []) (length ns) ≡ some v =
      subst (λ i. get_elem? (set ns a n' ++ v ∷ []) i ≡ some v) (length-set ns a n')
        (get_elem?-length (set ns a n') v) in
    (
      a,
      n,
      refl,
      at,
      le,
      (
        e,
        le,
        get_elem?-append (set ns a n') (v ∷ []) a n' (get_elem?-set ns a n' n at),
        (refl, lt, placed, h),
      ),
    )
push-Chain ns lo p a n ((a', n') ∷ xs) v (e, le, at, rest) h =
    let (b, w, last, at_b, above, tail) = push-Chain ns (suc a) n.next a' n' xs v rest h in
    let w' : Node = record w { next = some (length ns) } in
    let apart : a ≢ b = λ x. ground (arith, x, above) in
    (
      b,
      w,
      last,
      at_b,
      omega arith,
      (
        e,
        le,
        get_elem?-append (set ns b w') (v ∷ []) a n (get_elem?-set_ne ns a b w' apart ∙ at),
        tail,
      ),
    )

-- The address of the last node is at least the bound of the chain.
pub last_of-le :
    (ns : List Node) (lo : ℕ) (p : Option ℕ) (a : ℕ) (n : Node) (xs : Placed)
    → Chain ns lo p ((a, n) ∷ xs)
    → (b : ℕ) × (last_of (some a) xs ≡ some b) × (lo ≤ b)
last_of-le ns lo p a n [] (e, le, at, rest) = (a, refl, le)
last_of-le ns lo p a n ((a', n') ∷ xs) (e, le, at, rest) =
    let (b, eq, above) = last_of-le ns (suc a) n.next a' n' xs rest in (b, eq, omega arith)

-- The node behind another one that the search finds, unlinked.
unfoldable pub unlink_after : Key → Key → ℕ → Node → Placed → Placed
unlink_after h k a n [] = (a, n) ∷ []
unlink_after h k a n ((b, m) ∷ xs) =
    let rest = unlink_after h k b m xs in
    if matches m h k then (a, record n { next = m.next }) ∷ xs else (a, n) ∷ rest

unlink_hit :
    (a : ℕ) (n : Node) (b : ℕ) (m : Node) (xs : Placed) (h k : Key)
    → matches m h k ≡ true
    → unlink_after h k a n ((b, m) ∷ xs) ≡ (a, record n { next = m.next }) ∷ xs
unfolding unlink_after
unlink_hit a n b m xs h k hit = ground (arith, hit)

unlink_miss :
    (a : ℕ) (n : Node) (b : ℕ) (m : Node) (xs : Placed) (h k : Key)
    → matches m h k ≡ false
    → unlink_after h k a n ((b, m) ∷ xs) ≡ (a, n) ∷ unlink_after h k b m xs
unfolding unlink_after
unlink_miss a n b m xs h k miss = ground (arith, miss)

-- The result of unlinking what a search found: the node before it is on the heap, and its pointer was
-- moved on.
abbrev pub Unlinked : List Node → ℕ → Option ℕ → Placed → Option ℕ × ℕ × Node → Type 0
Unlinked ns lo p ys (q, b, m) =
    (i : ℕ) × (v : Node) × (q ≡ some i)
    × (get_elem? ns i ≡ some v)
    × (lo ≤ i)
    × Chain (set ns i (record v { next = m.next })) lo p ys

unlink_first :
    (ns : List Node) (lo : ℕ) (p : Option ℕ) (a : ℕ) (n : Node) (b : ℕ) (m : Node) (xs : Placed)
    → Chain ns lo p ((a, n) ∷ (b, m) ∷ xs)
    → Unlinked ns lo p ((a, record n { next = m.next }) ∷ xs) (some a, b, m)
unlink_first ns lo p a n b m xs (e, le, at, (e', le', at', rest)) =
    let tail = Chain-weaken ns (suc b) (suc a) m.next xs (omega arith) rest in
    (
      a,
      n,
      refl,
      at,
      le,
      (
        e,
        le,
        get_elem?-set ns a (record n { next = m.next }) n at,
        Chain-set ns (suc a) m.next xs a (record n { next = m.next }) (omega arith) tail,
      ),
    )

unlink_later :
    (ns : List Node) (lo : ℕ) (p : Option ℕ) (a : ℕ) (n : Node) (ys : Placed)
    (s : Option ℕ × ℕ × Node)
    → p ≡ some a
    → lo ≤ a
    → get_elem? ns a ≡ some n
    → Unlinked ns (suc a) n.next ys s
    → Unlinked ns lo p ((a, n) ∷ ys) s
unlink_later ns lo p a n ys (q, b, m) e le at (i, v, eq, at_i, above, tail) =
    let apart : a ≢ i = λ x. ground (arith, x, above) in
    (
      i,
      v,
      eq,
      at_i,
      omega arith,
      (e, le, get_elem?-set_ne ns a i (record v { next = m.next }) apart ∙ at, tail),
    )

pub unlink-Chain :
    (ns : List Node) (lo a : ℕ) (n : Node) (p : Option ℕ) (xs : Placed) (h k : Key) (q : Option ℕ)
    (b : ℕ) (m : Node)
    → Chain ns lo p ((a, n) ∷ xs)
    → find (some a) xs h k ≡ found q b m
    → Unlinked ns lo p (unlink_after h k a n xs) (q, b, m)
unfolding find
unlink-Chain ns lo a n p [] h k q b m ch f = cc
unlink-Chain ns lo a n p ((a', n') ∷ xs) h k q b m (e, le, at, rest) f =
    elim (Bool-cases (matches n' h k)) [
      | inl hit ↦
          let same : (some a, a', n') ≡ (q, b, m) =
            ap (pieces n) (sym (find_hit (some a) a' n' xs h k hit) ∙ f) in
          subst (λ ys. Unlinked ns lo p ys (q, b, m)) (sym (unlink_hit a n a' n' xs h k hit))
            (subst (Unlinked ns lo p ((a, record n { next = n'.next }) ∷ xs)) same
              (unlink_first ns lo p a n a' n' xs (e, le, at, rest)))
      | inr miss ↦
          subst (λ ys. Unlinked ns lo p ys (q, b, m)) (sym (unlink_miss a n a' n' xs h k miss))
            (unlink_later ns lo p a n (unlink_after h k a' n' xs) (q, b, m) e le at
              (unlink-Chain ns (suc a) a' n' n.next xs h k q b m rest
                (sym (find_miss (some a) a' n' xs h k miss) ∙ f)))
    ]
