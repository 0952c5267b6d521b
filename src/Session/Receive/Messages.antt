-- ===== src/Session/Receive/Messages.antt =====
-- What the WebSocket loop hands on, and how long its messages are.
use getty.Common.{
  ℕ, zero, suc, ◌+◌, ◌≡◌, ◌<◌, ◌≤◌, refl, sym, ◌∙◌, ap, Bool, ◌&&◌, ◌⊎◌, inl, inr, Option, none,
  some, List, [], ◌∷◌, ◌++◌, ltb, if◌then◌else◌, length, arith, Option-cases, Bool-cases, subst,
  append-nil, append_assoc,
}
use getty.Errors.{Error}
use getty.Connection.Net.{Bytes, Net}
use getty.Connection.Ws.{WsConn, thread_safe_read_message}
use getty.Connection.Ws
use getty.Session.Receive.{Reader}
use getty.Session.Receive.Ws.{
  WsReceiver, init_ws_receiver, message_error, decode_message, absorb_message, handle_ws_package,
}

-- The messages of a list that are longer than the limit of their round.
pub over_limit : List (ℕ × Bytes) → ℕ
over_limit [] = 0
over_limit ((max, bs) ∷ ms) =
    let rest = over_limit ms in if ltb 0 max && ltb max (length bs) then suc rest else rest

over_limit-append :
    (ms ns : List (ℕ × Bytes)) → over_limit (ms ++ ns) ≡ over_limit ms + over_limit ns
unfolding over_limit
over_limit-append [] ns = omega arith
over_limit-append (m ∷ ms) ns = ground (arith, over_limit-append ms ns)

recv-le :
    (net : Net) (c : WsConn) (max : ℕ)
    → 0 < max
    → (Ws.recv net c max).1 ≡ none
    → length (Ws.recv net c max).0 ≤ max
unfolding Ws.recv thread_safe_read_message
recv-le net c max h e = elim (Option-cases (net.next_reader c.calls)) [
  | inl x ↦ elim (Option-cases (net.read_message (c.calls + 1)).1) [
    | inl y ↦ ground (arith, x, y, h, e)
    | inr (a, y) ↦ ground (arith, x, y, h, e)
  ]
  | inr (a, x) ↦ ground (arith, x, e)
]

module _ {P : Type 0} (reader : Option (Reader P)) where
  -- The tasks that a list of messages makes, one message at a time.
  abbrev pub tasks_of : List (ℕ × Bytes) → List (P ⊎ Bytes)
  tasks_of [] = []
  tasks_of ((max, bs) ∷ ms) = decode_message reader max bs ++ tasks_of ms

  tasks_of-snoc :
      (ms : List (ℕ × Bytes)) (max : ℕ) (bs : Bytes)
      → tasks_of (ms ++ (max, bs) ∷ []) ≡ tasks_of ms ++ decode_message reader max bs
  tasks_of-snoc [] max bs = append-nil (decode_message reader max bs)
  tasks_of-snoc ((n, p) ∷ ms) max bs = ground (
    arith,
    tasks_of-snoc ms max bs,
    append_assoc (decode_message reader n p) (tasks_of ms) (decode_message reader max bs),
  )

  -- What may become of a message, with the limit of its round: without a reader it is handed on as it is; with
  -- one, no task for a message that is undecodable, reported longer than the limit, or incomplete, and the package of any other.
  pub data Verdict (max : ℕ) (bs : Bytes) : List (P ⊎ Bytes) → Type 0 where
    raw : reader ≡ none → Verdict max bs (inr bs ∷ [])
    undecodable :
        (read : Reader P) (e : Error)
        → reader ≡ some read
        → (read bs).2 ≡ some e
        → Verdict max bs []
    too_long :
        (read : Reader P) → reader ≡ some read → 0 < max → max < (read bs).1 → Verdict max bs []
    incomplete : (read : Reader P) → reader ≡ some read → (read bs).0 ≡ none → Verdict max bs []
    handed :
        (read : Reader P) (p : P)
        → reader ≡ some read
        → read bs ≡ (some p, (read bs).1, none)
        → (max ≡ 0) ⊎ ((read bs).1 ≤ max)
        → Verdict max bs (inl p ∷ [])

  -- The tasks of messages, in their order.
  pub data Served : List (ℕ × Bytes) → List (P ⊎ Bytes) → Type 0 where
    done : Served [] []
    one :
        {max : ℕ} {bs : Bytes} {ms : List (ℕ × Bytes)} {us ts : List (P ⊎ Bytes)}
        → Verdict max bs us
        → Served ms ts
        → Served ((max, bs) ∷ ms) (us ++ ts)

  decode_message-Verdict : (max : ℕ) (bs : Bytes) → Verdict max bs (decode_message reader max bs)
  unfolding decode_message
  decode_message-Verdict max bs = elim (Option-cases reader) [
    | inl n ↦ to (ground (arith, n)) (raw n)
    | inr (read, r) ↦ elim (Option-cases (read bs).2) [
      | inr (e, x) ↦ to (unfold message_error in ground (arith, r, x)) (undecodable read e r x)
      | inl x ↦ elim (Bool-cases (ltb 0 max && ltb max (read bs).1)) [
        | inl l ↦
            to (unfold message_error in ground (arith, r, x, l))
              (too_long read r (ground (arith, l)) (ground (arith, l)))
        | inr l ↦ elim (Option-cases (read bs).0) [
          | inl p ↦ to (unfold message_error in ground (arith, r, x, l, p)) (incomplete read r p)
          | inr (p, q) ↦
              to (unfold message_error in ground (arith, r, x, l, q))
                (handed read p r (ground (arith, x, q)) (ground (arith, l)))
        ]
      ]
    ]
  ]
    where
      to :
          {us : List (P ⊎ Bytes)}
          → decode_message reader max bs ≡ us
          → Verdict max bs us
          → Verdict max bs (decode_message reader max bs)
      to e v = subst (Verdict max bs) (sym e) v

  tasks_of-Served : (ms : List (ℕ × Bytes)) → Served ms (tasks_of ms)
  tasks_of-Served [] = done
  tasks_of-Served ((max, bs) ∷ ms) = one (decode_message-Verdict max bs) (tasks_of-Served ms)

  -- What the loop keeps to.
  abbrev pub Follows : WsReceiver P → Type 0
  Follows r = (r.tasks ≡ tasks_of r.received) × (over_limit r.received ≡ 0)

  absorb_message-Follows :
      (max : ℕ) (r : WsReceiver P) (d : Bytes × Option Error × WsConn)
      → (0 < max → d.1 ≡ none → length d.0 ≤ max)
      → Follows r
      → Follows (absorb_message reader max r d).0
  unfolding absorb_message over_limit
  absorb_message-Follows max r (bs, some e, c) le h = h
  absorb_message-Follows max r (bs, none, c) le (h, z) = (
    ap (λ ts. ts ++ decode_message reader max bs) h ∙ sym (tasks_of-snoc r.received max bs),
    ground (arith, z, le, over_limit-append r.received ((max, bs) ∷ [])),
  )

  handle_from :
      (net : Net) (closed : ℕ → Bool) (max : ℕ → ℕ) (k : ℕ) (r : WsReceiver P)
      → Follows r
      → Follows (handle_ws_package reader net closed max k r).0
  unfolding handle_ws_package
  handle_from net closed max zero r h = h
  handle_from net closed max (suc k) r h =
      let d = Ws.recv net r.conn (max k) in
      let once = absorb_message-Follows (max k) r d (recv-le net r.conn (max k)) h in
      ground
        (arith, h, once, handle_from net closed max k (absorb_message reader (max k) r d).0 once)

  follows :
      (net : Net) (closed : ℕ → Bool) (max : ℕ → ℕ) (k : ℕ) (c : WsConn)
      → Follows (handle_ws_package reader net closed max k (init_ws_receiver c)).0
  unfolding over_limit
  follows net closed max k c = handle_from net closed max k (init_ws_receiver c) (refl, refl)

  -- Whatever arrives, the WebSocket loop serves the messages that it received one at a time and in order, with the
  -- limit of each one's round: one that is undecodable, incomplete, or longer than the limit by its
  -- decoder makes no task; any other makes one, with its package, or with its bytes where there is no
  -- reader; none changes what becomes of the others. No message that it reads is longer than a positive limit.
  pub handle_ws_package-Served :
      (net : Net) (closed : ℕ → Bool) (max : ℕ → ℕ) (k : ℕ) (c : WsConn)
      → let r = (handle_ws_package reader net closed max k (init_ws_receiver c)).0 in
        Served r.received r.tasks × (over_limit r.received ≡ 0)
  handle_ws_package-Served net closed max k c =
      let r = (handle_ws_package reader net closed max k (init_ws_receiver c)).0 in
      let (tasks, short) = follows net closed max k c in
      (subst (Served r.received) (sym tasks) (tasks_of-Served r.received), short)
