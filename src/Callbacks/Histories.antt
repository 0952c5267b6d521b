-- ===== src/Callbacks/Histories.antt =====
-- Removal, and every history of registrations and removals.
use getty.Common.{
  ℕ, suc, ◌-◌, ◌≡◌, refl, sym, ◌∙◌, ap, subst, true, ◌&&◌, Option, none, some, List, [], ◌∷◌,
  length, arith, Bool-cases, inl, inr,
}
use getty.Callbacks.{
  Key, is_comparable, Node, Callbacks, Search, absent, found, fault, relink, drop_last, add, remove,
  invoke, empty, len,
}
use getty.Callbacks.Chain.{Placed, Chain, find, invoke_from-calls}
use getty.Callbacks.Edit.{find_hit, find_miss, pieces, matches, last_of}
use getty.Callbacks.Refine.{
  Entry, erase, functions, entries, Refines, empty-Refines, calls-functions,
}
use getty.Callbacks.Operations.{
  fits, searched, unlinked_first, unlinked_later, find-ne-fault, remove_absent, remove_found, Gives,
  add_entry, remove_entry, add-Gives,
}

erase-absent :
    (prev : Option ℕ) (xs : Placed) (h k : Key)
    → find prev xs h k ≡ absent
    → erase h k (entries xs) ≡ entries xs
unfolding find erase entries
erase-absent prev [] h k f = refl
erase-absent prev ((a, n) ∷ xs) h k f = elim (Bool-cases (matches n h k)) [
  | inl hit ↦ ground (arith, hit, f)
  | inr miss ↦ ground (arith, miss, f, erase-absent (some a) xs h k)
]

-- What `Remove` does with what it found.
abbrev cut : Callbacks → Option ℕ × ℕ × Node → Callbacks
cut t (q, b, m) = record (relink t q m.next) { last = drop_last t.last b q; cb_num = t.cb_num - 1 }

unlinked :
    (t : Callbacks) (xs : Placed) (h k : Key) (q : Option ℕ) (b : ℕ) (m : Node)
    → Chain t.nodes 0 t.first xs
    → t.last ≡ last_of none xs
    → t.cb_num ≡ length xs
    → find none xs h k ≡ found q b m
    → Refines (cut t (q, b, m)) (erase h k (entries xs))
unfolding find relink
unlinked t [] h k q b m ch last counted f = cc
unlinked t ((a, n) ∷ xs) h k q b m ch last counted f = elim (Bool-cases (matches n h k)) [
  | inl hit ↦
      subst (λ s. Refines (cut t s) (erase h k (entries ((a, n) ∷ xs))))
        (ap (pieces n) (sym (find_hit none a n xs h k hit) ∙ f))
        (unlinked_first t a n xs h k ch last counted hit)
  | inr miss ↦
      unlinked_later t a n xs h k q b m ch last counted miss
        (sym (find_miss none a n xs h k miss) ∙ f)
]

remove_by :
    (t : Callbacks) (es : List Entry) (h k : Key) (v : Refines t es) (s : Search)
    → (is_comparable h && is_comparable k) ≡ true
    → find none v.nodes h k ≡ s
    → Gives (remove t h k) (erase h k es)
remove_by t es h k v absent ok e = (
  t,
  remove_absent t h k ok (searched t v.nodes h k v.chain ∙ e),
  subst (Refines t) (sym (ap (erase h k) (sym v.same) ∙ erase-absent none v.nodes h k e ∙ v.same))
      v,
)
remove_by t es h k v (found q b m) ok e = (
  _,
  remove_found t h k q b m ok (searched t v.nodes h k v.chain ∙ e),
  subst (λ x. Refines (cut t (q, b, m)) (erase h k x)) v.same
      (unlinked t v.nodes h k q b m v.chain v.last v.counted e),
)
remove_by t es h k v fault ok e = absurd (find-ne-fault none v.nodes h k e)

remove-Gives :
    (t : Callbacks) (es : List Entry) (h k : Key)
    → Refines t es
    → Gives (remove t h k) (remove_entry h k es)
unfolding remove remove_entry
remove-Gives t es h k v = elim (Bool-cases (is_comparable h && is_comparable k)) [
  | inr bad ↦ rw (bad, remove) (t, refl, v)
  | inl ok ↦
      subst (Gives (remove t h k)) (ground (arith, ok))
        (remove_by t es h k v (find none v.nodes h k) ok refl)
]

-- A call of one of the two methods.
pub data Call : Type 0 where
  adds : Key → Key → Option ℕ → Call
  removes : Key → Key → Call

unfoldable pub apply : Call → Callbacks → Option Callbacks
apply (adds h k c) t = add t h k c
apply (removes h k) t = remove t h k

unfoldable pub apply_entry : Call → List Entry → List Entry
apply_entry (adds h k c) es = add_entry h k c es
apply_entry (removes h k) es = remove_entry h k es

-- The calls of a history, in order.
unfoldable pub run : List Call → Callbacks → Option Callbacks
run [] t = some t
run (c ∷ cs) t = elim (apply c t) [ none ↦ none | some u ↦ run cs u ]

unfoldable pub run_entries : List Call → List Entry → List Entry
run_entries [] es = es
run_entries (c ∷ cs) es = run_entries cs (apply_entry c es)

apply-Gives :
    (c : Call) (t : Callbacks) (es : List Entry)
    → Refines t es
    → Gives (apply c t) (apply_entry c es)
unfolding apply apply_entry
apply-Gives (adds h k c) t es v = add-Gives t es h k c v
apply-Gives (removes h k) t es v = remove-Gives t es h k v

run-Gives :
    (cs : List Call) (t : Callbacks) (es : List Entry)
    → Refines t es
    → Gives (run cs t) (run_entries cs es)
unfolding run run_entries
run-Gives [] t es v = (t, refl, v)
run-Gives (c ∷ cs) t es v =
    let (u, e, w) = apply-Gives c t es v in
    let (x, e', y) = run-Gives cs u (apply_entry c es) w in (x, rw (e, run) e', y)

invoked : (t : Callbacks) (es : List Entry) → Refines t es → invoke t ≡ some (functions es)
unfolding invoke
invoked t es v =
    invoke_from-calls (length t.nodes) t.nodes 0 t.first v.nodes v.chain (fits t v.nodes v.chain)
    ∙ ap some (calls-functions v.nodes ∙ ap functions v.same)

entries-length : (xs : Placed) → length (entries xs) ≡ length xs
unfolding entries
entries-length [] = refl
entries-length ((a, n) ∷ xs) = ap (λ i. suc i) (entries-length xs)

counts : (t : Callbacks) (es : List Entry) → Refines t es → len t ≡ length es
counts t es v = v.counted ∙ sym (entries-length v.nodes) ∙ ap length v.same

-- The linked list of close callbacks is an ordered map from handler and key to a function. After any
-- series of `Add` and `Remove` on an empty list, no pointer was off the heap, `Invoke` calls the functions of
-- the registrations in the order in which they were first added, a second `Add` having replaced the function in
-- place, and `Len` is their number. What is not comparable, and a nil function, is ignored.
pub run-refines :
    (cs : List Call)
    → (t : Callbacks) × (run cs empty ≡ some t)
      × (invoke t ≡ some (functions (run_entries cs [])))
      × (len t ≡ length (run_entries cs []))
run-refines cs =
    let (t, e, v) = run-Gives cs empty [] empty-Refines in
    (t, e, invoked t (run_entries cs []) v, counts t (run_entries cs []) v)
