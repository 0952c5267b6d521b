-- ===== src/Callbacks.antt =====
-- transport/callback.go: the linked list of close callbacks. Nodes lie on a heap, the list `nodes`,
-- and a pointer is an index into it; a node that was unlinked stays there, as garbage does.
pub mod Chain
pub mod Edit
pub mod Refine
pub mod Operations
pub mod Histories
use getty.Common.{
  ℕ, zero, suc, ◌+◌, ◌-◌, Bool, true, false, ◌&&◌, Option, none, some, List, [], ◌∷◌, ◌++◌, ◌==◌,
  if◌then◌else◌, length, get_elem?, set,
}

-- A value of the type `any`: nil, or a value whose type is or is not comparable. The number stands for
-- its type and value. No comparison of two values of comparable types panics.
pub data Key : Type 0 where
  nil : Key
  comparable : ℕ → Key
  incomparable : ℕ → Key

pub is_comparable : Key → Bool
is_comparable nil = true
is_comparable (comparable n) = true
is_comparable (incomparable n) = false

-- Go's `==` on comparable values.
pub key_eq : Key → Key → Bool
key_eq nil nil = true
key_eq (comparable m) (comparable n) = m == n
key_eq _ _ = false

-- A `callbackNode`. The number in `call` stands for a function value, `none` for a nil one.
pub record Node : Type 0 where
  pub handler : Key
  pub key : Key
  pub call : Option ℕ
  pub next : Option ℕ

pub record Callbacks : Type 0 where
  pub nodes : List Node
  pub first : Option ℕ
  pub last : Option ℕ
  pub cb_num : ℕ

-- The zero value `callbacks{}`, on a heap of its own.
unfoldable pub empty : Callbacks
empty = record { nodes = []; first = none; last = none; cb_num = 0 }

pub data Search : Type 0 where
  absent : Search
  -- The node before the one that was found, that node's address, and the node.
  found : Option ℕ → ℕ → Node → Search
  -- A pointer off the heap, or a list longer than the heap.
  fault : Search

-- The loop over the nodes that both `Add` and `Remove` run, on fuel.
pub search_from : ℕ → List Node → Option ℕ → Option ℕ → Key → Key → Search
unfolding key_eq
search_from fuel ns prev none h k = absent
search_from zero ns prev (some a) h k = fault
search_from (suc fuel) ns prev (some a) h k = elim (get_elem? ns a) [
  | none ↦ fault
  | some n ↦
      let rest = search_from fuel ns (some a) n.next h k in
      if key_eq n.handler h && key_eq n.key k then found prev a n else rest
]

-- `t.first = p` or `prev.next = p`, as the previous node is there or not.
pub relink : Callbacks → Option ℕ → Option ℕ → Callbacks
relink t none p = record t { first = p }
relink t (some a) p = elim (get_elem? t.nodes a) [
  | none ↦ t
  | some n ↦ record t { nodes = set t.nodes a (record n { next = p }) }
]

-- The end of `Add`: a new node behind the last one.
pub push_back : Callbacks → Key → Key → ℕ → Callbacks
unfolding relink
push_back t h k c =
    let new = length t.nodes in
    let node : Node = record { handler = h; key = k; call = some c; next = none } in
    let linked = relink t (elim t.first [ none ↦ none | some _ ↦ t.last ]) (some new) in
    record linked { nodes = linked.nodes ++ node ∷ []; last = some new; cb_num = t.cb_num + 1 }

-- `Add`; `none` is a fault, which no list built by these methods meets.
unfoldable pub add : Callbacks → Key → Key → Option ℕ → Option Callbacks
unfolding is_comparable search_from push_back
add t h k none = some t
add t h k (some c) =
    if is_comparable h && is_comparable k
    then (elim (search_from (length t.nodes) t.nodes none t.first h k) [
      | fault ↦ none
      | found _ a n ↦ some (record t { nodes = set t.nodes a (record n { call = some c }) })
      | absent ↦ some (push_back t h k c)
    ])
    else some t

-- `if t.last == callback { t.last = prev }`.
pub drop_last : Option ℕ → ℕ → Option ℕ → Option ℕ
drop_last none a prev = none
drop_last (some b) a prev = if b == a then prev else some b

unfoldable pub remove : Callbacks → Key → Key → Option Callbacks
unfolding is_comparable search_from relink drop_last
remove t h k =
    if is_comparable h && is_comparable k
    then (elim (search_from (length t.nodes) t.nodes none t.first h k) [
      | fault ↦ none
      | found prev a n ↦
          some (record (relink t prev n.next) {
            last = drop_last t.last a prev;
            cb_num = t.cb_num - 1;
          })
      | absent ↦ some t
    ])
    else some t

-- `Invoke`: the functions that it calls, in order, from the node at `p` on.
pub invoke_from : ℕ → List Node → Option ℕ → Option (List ℕ)
invoke_from fuel ns none = some []
invoke_from zero ns (some a) = none
invoke_from (suc fuel) ns (some a) = elim (get_elem? ns a) [
  | none ↦ none
  | some n ↦ elim (invoke_from fuel ns n.next) [
    | none ↦ none
    | some cs ↦ some (elim n.call [ none ↦ cs | some c ↦ c ∷ cs ])
  ]
]

unfoldable pub invoke : Callbacks → Option (List ℕ)
unfolding invoke_from
invoke t = invoke_from (length t.nodes) t.nodes t.first

abbrev pub len : Callbacks → ℕ
len t = t.cb_num
