-- ===== src/Echo/Client/Sessions.antt =====
-- The sessions of the echo client as a bag: how often each was opened and has not gone.
use getty.Common.{
  ℕ, zero, suc, ◌+◌, ◌-◌, ◌<◌, ◌≡◌, refl, sym, subst, ◌∙◌, Option, none, some, List, [], ◌∷◌, ◌++◌,
  ◌==◌, if◌then◌else◌, length, get_elem?, Bool-cases, inl, inr, arith,
}
use getty.Echo.Client.{
  Entry, EchoClient, init_client, select_session, add_session, remove_entry, remove_session,
  update_entry, update_session,
}

-- What the handlers do with the sessions.
pub data Op : Type 0 where
  opened : ℕ → Op
  gone : ℕ → Op
  answered : ℕ → Op

unfoldable pub step : EchoClient → Op → EchoClient
unfolding add_session remove_session update_session
step c (opened s) = add_session s c
step c (gone s) = remove_session s c
step c (answered s) = update_session s c

unfoldable pub run : EchoClient → List Op → EchoClient
unfolding step
run c [] = c
run c (op ∷ ops) = run (step c op) ops

-- The bag: a number for each session.
unfoldable pub bag_step : (ℕ → ℕ) → Op → ℕ → ℕ
bag_step b (opened s) t = if s == t then suc (b t) else b t
bag_step b (gone s) t = if s == t then b t - 1 else b t
bag_step b (answered s) t = b t

unfoldable pub bag : (ℕ → ℕ) → List Op → ℕ → ℕ
unfolding bag_step
bag b [] = b
bag b (op ∷ ops) = bag (bag_step b op) ops

abbrev pub count : ℕ → List Entry → ℕ
count t [] = 0
count t (e ∷ es) = if e.session == t then suc (count t es) else count t es

count-append : (t : ℕ) (es fs : List Entry) → count t (es ++ fs) ≡ count t es + count t fs
count-append t [] fs = omega arith
count-append t (e ∷ es) fs = ground (arith, count-append t es fs)

count-remove_entry :
    (s t : ℕ) (es : List Entry)
    → count t (remove_entry s es) ≡ (if s == t then count t es - 1 else count t es)
unfolding remove_entry
count-remove_entry s t [] = ground arith
count-remove_entry s t (e ∷ es) = elim (Bool-cases (e.session == s)) [
  | inl same ↦ elim (Bool-cases (s == t)) [
    | inl hit ↦ ground (arith, same, hit)
    | inr miss ↦ ground (arith, same, miss)
  ]
  | inr differs ↦ elim (Bool-cases (s == t)) [
    | inl hit ↦ ground (arith, differs, hit, count-remove_entry s t es)
    | inr miss ↦ ground (arith, differs, miss, count-remove_entry s t es)
  ]
]

count-update_entry : (s t : ℕ) (es : List Entry) → count t (update_entry s es) ≡ count t es
unfolding update_entry
count-update_entry s t [] = refl
count-update_entry s t (e ∷ es) = ground (arith, count-update_entry s t es)

count-step :
    (t : ℕ) (b : ℕ → ℕ) (c : EchoClient) (op : Op)
    → count t c.sessions ≡ b t
    → count t (step c op).sessions ≡ bag_step b op t
unfolding step add_session remove_session update_session bag_step
count-step t b c (opened s) h =
    ground (arith, h, count-append t c.sessions (record { session = s; req_num = 0 } ∷ []))
count-step t b c (gone s) h = ground (arith, h, count-remove_entry s t c.sessions)
count-step t b c (answered s) h = count-update_entry s t c.sessions ∙ h

run-count :
    (ops : List Op) (b : ℕ → ℕ) (c : EchoClient)
    → ((t : ℕ) → count t c.sessions ≡ b t)
    → (t : ℕ) → count t (run c ops).sessions ≡ bag b ops t
unfolding run bag
run-count [] b c h = h
run-count (op ∷ ops) b c h =
    run-count ops (bag_step b op) (step c op) (λ t. count-step t b c op (h t))

count-get_elem? :
    (es : List Entry) (i : ℕ) (e : Entry) → get_elem? es i ≡ some e → 0 < count e.session es
count-get_elem? [] i e h = cc
count-get_elem? (x ∷ es) zero e h = ground (arith, h)
count-get_elem? (x ∷ es) (suc i) e h = ground (arith, count-get_elem? es i e h)

-- What `selectSession` chose, against the bag.
abbrev pub Chosen : (ℕ → ℕ) → Option ℕ → Type 0
Chosen b none = (t : ℕ) → b t ≡ 0
Chosen b (some s) = 0 < b s

get_elem?-in : (es : List Entry) (i : ℕ) → i < length es → (e : Entry) × (get_elem? es i ≡ some e)
get_elem?-in [] i h = absurd (omega arith)
get_elem?-in (e ∷ es) zero h = (e, refl)
get_elem?-in (e ∷ es) (suc i) h = get_elem?-in es i (omega arith)

count_empty : (t : ℕ) (es : List Entry) → length es ≡ 0 → count t es ≡ 0
count_empty t [] h = refl
count_empty t (e ∷ es) h = absurd (omega arith)

select_session-Chosen :
    (draw : ℕ → ℕ) (c : EchoClient) (o : Option ℕ)
    → ((n : ℕ) → 0 < n → draw n < n)
    → select_session draw c ≡ o
    → Chosen (λ t. count t c.sessions) o
unfolding select_session
select_session-Chosen draw c o d h = elim (Bool-cases (length c.sessions == 0)) [
  | inl e ↦
      let empty : length c.sessions ≡ 0 = ground (arith, e) in
      let nil : o ≡ none = ground (arith, h, e) in
      subst (Chosen (λ t. count t c.sessions)) (sym nil) (λ t. count_empty t c.sessions empty)
  | inr e ↦
      let some_there : 0 < length c.sessions = ground (arith, e) in
      let (x, at_draw) =
        get_elem?-in c.sessions (draw (length c.sessions)) (d (length c.sessions) some_there) in
      let chosen : o ≡ some x.session = ground (arith, h, e, at_draw) in
      subst (Chosen (λ t. count t c.sessions)) (sym chosen)
        (count-get_elem? c.sessions (draw (length c.sessions)) x at_draw)
]

Chosen-resp : (b b' : ℕ → ℕ) (o : Option ℕ) → ((t : ℕ) → b t ≡ b' t) → Chosen b o → Chosen b' o
Chosen-resp b b' none same h = λ t. sym (same t) ∙ h t
Chosen-resp b b' (some s) same h = omega (arith, same s, h)

-- The list of the client's sessions is a bag to those who use it: an opened session counts one
-- more, and one that went counts one less, if it was there. After any history of sessions that
-- opened, went and answered, and whatever number below that of the sessions is drawn:
-- `selectSession` returns a session that is in the bag, and nil only where the bag is empty.
pub select_session-bag :
    (ops : List Op) (draw : ℕ → ℕ) (o : Option ℕ)
    → ((n : ℕ) → 0 < n → draw n < n)
    → select_session draw (run init_client ops) ≡ o
    → Chosen (bag (λ t. 0) ops) o
select_session-bag ops draw o d h =
    Chosen-resp (λ t. count t (run init_client ops).sessions) (bag (λ t. 0) ops) o
      (run-count ops (λ t. 0) init_client (λ t. refl))
      (select_session-Chosen draw (run init_client ops) o d h)
