-- ===== src/Callbacks/Operations.antt =====
-- The steps of `Add` and `Remove` against the list of registrations.
use getty.Common.{
  ℕ, suc, ◌+◌, ◌-◌, ◌≤◌, ◌≡◌, ◌≢◌, refl, sym, ◌∙◌, ap, subst, true, false, ◌&&◌, Option, none, some,
  List, [], ◌∷◌, ◌++◌, if◌then◌else◌, length, get_elem?, set, arith, Bool-cases, inl, inr,
}
use getty.Callbacks.{
  Key, is_comparable, Node, Callbacks, Search, absent, found, fault, search_from, relink, push_back,
  drop_last, add, remove,
}
use getty.Callbacks.Chain.{
  get_elem?-length, Placed, Chain, Chain-length, Chain-weaken, find, search_from-find,
}
use getty.Callbacks.Edit.{
  find_miss, matches, replace, replace-Chain, last_of, push, push-Chain, unlink_after, unlink-Chain,
}
use getty.Callbacks.Refine.{
  Entry, upsert, erase, entries, Refines, replace-entries, replace-last_of, push-entries,
  push-last_of, unlink-entries, drop_above, unlink-last_of,
}

pub fits : (t : Callbacks) (xs : Placed) → Chain t.nodes 0 t.first xs → length xs ≤ length t.nodes
fits t xs ch = omega (arith, Chain-length t.nodes 0 t.first xs ch (omega arith))

pub searched :
    (t : Callbacks) (xs : Placed) (h k : Key)
    → Chain t.nodes 0 t.first xs
    → search_from (length t.nodes) t.nodes none t.first h k ≡ find none xs h k
searched t xs h k ch =
    search_from-find (length t.nodes) t.nodes 0 none t.first xs h k ch (fits t xs ch)

abbrev node : Key → Key → ℕ → Node
node h k c = record { handler = h; key = k; call = some c; next = none }

push_back-first :
    (t : Callbacks) (h k : Key) (c : ℕ)
    → t.first ≡ none
    → push_back t h k c ≡ record t {
      nodes = t.nodes ++ node h k c ∷ [];
      first = some (length t.nodes);
      last = some (length t.nodes);
      cb_num = t.cb_num + 1;
    }
unfolding push_back relink
push_back-first t h k c e = rw (e, push_back) refl

push_back-next :
    (t : Callbacks) (h k : Key) (c a b : ℕ) (w : Node)
    → t.first ≡ some a
    → t.last ≡ some b
    → get_elem? t.nodes b ≡ some w
    → push_back t h k c ≡ record t {
      nodes = set t.nodes b (record w { next = some (length t.nodes) }) ++ node h k c ∷ [];
      last = some (length t.nodes);
      cb_num = t.cb_num + 1;
    }
unfolding push_back relink
push_back-next t h k c a b w e last at = ground (arith, e, last, at)

push_back-Refines :
    (t : Callbacks) (xs : Placed) (h k : Key) (c : ℕ)
    → Chain t.nodes 0 t.first xs
    → t.last ≡ last_of none xs
    → t.cb_num ≡ length xs
    → find none xs h k ≡ absent
    → Refines (push_back t h k c) (upsert h k c (entries xs))
push_back-Refines t [] h k c ch last counted f =
    subst (λ u. Refines u (upsert h k c (entries []))) (sym (push_back-first t h k c ch))
      (record {
        nodes = (length t.nodes, node h k c) ∷ [];
        chain = (refl, omega arith, get_elem?-length t.nodes (node h k c), refl);
        last = refl;
        counted = omega (arith, counted);
        same = (push-entries none [] h k c (length t.nodes) f).0;
      })
push_back-Refines t ((a, n) ∷ xs) h k c (e, le, at, rest) last counted f =
    let (b, w, end, at_b, _, ch) =
      push-Chain t.nodes 0 t.first a n xs (node h k c) (e, le, at, rest) refl in
    let (same, more) = push-entries none ((a, n) ∷ xs) h k c (length t.nodes) f in
    subst (λ u. Refines u (upsert h k c (entries ((a, n) ∷ xs))))
      (sym (push_back-next t h k c a b w e (last ∙ end) at_b))
      (record {
        nodes = push (length t.nodes) (node h k c) ((a, n) ∷ xs);
        chain = ch;
        last = sym (push-last_of none ((a, n) ∷ xs) (length t.nodes) (node h k c));
        counted = omega (arith, counted, more);
        same = same;
      })

replaced :
    (t : Callbacks) (es : List Entry) (h k : Key) (c : ℕ) (v : Refines t es) (q : Option ℕ) (b : ℕ)
    (m : Node)
    → find none v.nodes h k ≡ found q b m
    → Refines (record t { nodes = set t.nodes b (record m { call = some c }) }) (upsert h k c es)
replaced t es h k c v q b m f = record {
  nodes = replace h k c v.nodes;
  chain = (replace-Chain t.nodes 0 none t.first v.nodes h k c q b m v.chain f).0;
  last = v.last ∙ sym (replace-last_of none v.nodes h k c);
  counted = v.counted ∙ sym (replace-entries none v.nodes h k c q b m f).1;
  same = (replace-entries none v.nodes h k c q b m f).0 ∙ ap (upsert h k c) v.same;
}

pub unlinked_first :
    (t : Callbacks) (a : ℕ) (n : Node) (xs : Placed) (h k : Key)
    → Chain t.nodes 0 t.first ((a, n) ∷ xs)
    → t.last ≡ last_of (some a) xs
    → t.cb_num ≡ suc (length xs)
    → matches n h k ≡ true
    → Refines
        (record t { first = n.next; last = drop_last t.last a none; cb_num = t.cb_num - 1 })
        (erase h k (entries ((a, n) ∷ xs)))
unfolding erase entries
unlinked_first t a n xs h k (e, le, at, rest) last counted hit = record {
  nodes = xs;
  chain = Chain-weaken t.nodes (suc a) 0 n.next xs (omega arith) rest;
  last = ap (λ l. drop_last l a none) last ∙ drop_above t.nodes a n.next xs none rest;
  counted = omega (arith, counted);
  same = ground (arith, hit);
}

relinked :
    (t : Callbacks) (q : Option ℕ) (i : ℕ) (v : Node) (p : Option ℕ)
    → q ≡ some i
    → get_elem? t.nodes i ≡ some v
    → relink t q p ≡ record t { nodes = set t.nodes i (record v { next = p }) }
unfolding relink
relinked t q i v p e at = ground (arith, e, at)

erase_miss :
    (a : ℕ) (n : Node) (xs : Placed) (h k : Key)
    → matches n h k ≡ false
    → (n.handler, n.key, n.call) ∷ erase h k (entries xs) ≡ erase h k (entries ((a, n) ∷ xs))
unfolding erase entries
erase_miss a n xs h k miss = ground (arith, miss)

pub unlinked_later :
    (t : Callbacks) (a : ℕ) (n : Node) (xs : Placed) (h k : Key) (q : Option ℕ) (b : ℕ) (m : Node)
    → Chain t.nodes 0 t.first ((a, n) ∷ xs)
    → t.last ≡ last_of (some a) xs
    → t.cb_num ≡ suc (length xs)
    → matches n h k ≡ false
    → find (some a) xs h k ≡ found q b m
    → Refines
        (record (relink t q m.next) { last = drop_last t.last b q; cb_num = t.cb_num - 1 })
        (erase h k (entries ((a, n) ∷ xs)))
unlinked_later t a n xs h k q b m ch last counted miss f =
    let (i, v, eq, at, _, tail) = unlink-Chain t.nodes 0 a n t.first xs h k q b m ch f in
    let (es, len_) = unlink-entries a n xs h k q b m f in
    subst
      (λ u.
        Refines (record u { last = drop_last t.last b q; cb_num = t.cb_num - 1 })
          (erase h k (entries ((a, n) ∷ xs))))
      (sym (relinked t q i v m.next eq at))
      (record {
        nodes = unlink_after h k a n xs;
        chain = tail;
        last =
            ap (λ l. drop_last l b q) last
            ∙ sym (unlink-last_of t.nodes 0 t.first a n xs h k q b m ch f none);
        counted = omega (arith, counted, len_);
        same = es ∙ erase_miss a n xs h k miss;
      })

-- `Add` and `Remove` on the registrations; what is not comparable, and a nil function, is ignored.
unfoldable pub add_entry : Key → Key → Option ℕ → List Entry → List Entry
add_entry h k none es = es
add_entry h k (some c) es = if is_comparable h && is_comparable k then upsert h k c es else es

unfoldable pub remove_entry : Key → Key → List Entry → List Entry
remove_entry h k es = if is_comparable h && is_comparable k then erase h k es else es

pub find-ne-fault : (prev : Option ℕ) (xs : Placed) (h k : Key) → find prev xs h k ≢ fault
unfolding find
find-ne-fault prev [] h k = λ x. cc
find-ne-fault prev ((a, n) ∷ xs) h k = elim (Bool-cases (matches n h k)) [
  | inl hit ↦ λ x. ground (arith, hit, x)
  | inr miss ↦ λ x. find-ne-fault (some a) xs h k (sym (find_miss prev a n xs h k miss) ∙ x)
]

-- What the two operations return, by the result of the search.
add_absent :
    (t : Callbacks) (h k : Key) (c : ℕ)
    → (is_comparable h && is_comparable k) ≡ true
    → search_from (length t.nodes) t.nodes none t.first h k ≡ absent
    → add t h k (some c) ≡ some (push_back t h k c)
unfolding add
add_absent t h k c ok e = rw (ok, e, add) refl

add_found :
    (t : Callbacks) (h k : Key) (c : ℕ) (q : Option ℕ) (b : ℕ) (m : Node)
    → (is_comparable h && is_comparable k) ≡ true
    → search_from (length t.nodes) t.nodes none t.first h k ≡ found q b m
    → add t h k (some c) ≡ some (record t { nodes = set t.nodes b (record m { call = some c }) })
unfolding add
add_found t h k c q b m ok e = rw (ok, e, add) refl

pub remove_absent :
    (t : Callbacks) (h k : Key)
    → (is_comparable h && is_comparable k) ≡ true
    → search_from (length t.nodes) t.nodes none t.first h k ≡ absent
    → remove t h k ≡ some t
unfolding remove
remove_absent t h k ok e = rw (ok, e, remove) refl

pub remove_found :
    (t : Callbacks) (h k : Key) (q : Option ℕ) (b : ℕ) (m : Node)
    → (is_comparable h && is_comparable k) ≡ true
    → search_from (length t.nodes) t.nodes none t.first h k ≡ found q b m
    → remove t h k
      ≡ some (record (relink t q m.next) { last = drop_last t.last b q; cb_num = t.cb_num - 1 })
unfolding remove
remove_found t h k q b m ok e = rw (ok, e, remove) refl

-- The result of an operation stands for the registrations.
abbrev pub Gives : Option Callbacks → List Entry → Type 0
Gives o es = (u : Callbacks) × (o ≡ some u) × Refines u es

add_by :
    (t : Callbacks) (es : List Entry) (h k : Key) (c : ℕ) (v : Refines t es) (s : Search)
    → (is_comparable h && is_comparable k) ≡ true
    → find none v.nodes h k ≡ s
    → Gives (add t h k (some c)) (upsert h k c es)
add_by t es h k c v absent ok e = (
  push_back t h k c,
  add_absent t h k c ok (searched t v.nodes h k v.chain ∙ e),
  subst (λ x. Refines (push_back t h k c) (upsert h k c x)) v.same
      (push_back-Refines t v.nodes h k c v.chain v.last v.counted e),
)
add_by t es h k c v (found q b m) ok e = (
  _,
  add_found t h k c q b m ok (searched t v.nodes h k v.chain ∙ e),
  replaced t es h k c v q b m e,
)
add_by t es h k c v fault ok e = absurd (find-ne-fault none v.nodes h k e)

pub add-Gives :
    (t : Callbacks) (es : List Entry) (h k : Key) (c : Option ℕ)
    → Refines t es
    → Gives (add t h k c) (add_entry h k c es)
unfolding add add_entry
add-Gives t es h k none v = (t, refl, v)
add-Gives t es h k (some c) v = elim (Bool-cases (is_comparable h && is_comparable k)) [
  | inr bad ↦ rw (bad, add) (t, refl, v)
  | inl ok ↦
      subst (Gives (add t h k (some c))) (ground (arith, ok))
        (add_by t es h k c v (find none v.nodes h k) ok refl)
]
