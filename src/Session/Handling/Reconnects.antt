-- ===== src/Session/Handling/Reconnects.antt =====
-- When the end of reading asks a client to connect again.
use getty.Common.{
  ℕ, zero, suc, ◌-◌, ◌||◌, ◌++◌, List, [], length, ◌≡◌, refl, ◌∙◌, Bool, true, false, Option, none,
  some, ◌∷◌, map, if◌then◌else◌, is_some, Option-cases, Bool-cases, inl, inr, arith,
}
use getty.Errors.{Error, IoError, io, eof}
use getty.Connection.Net.{Net}
use getty.Connection.Conn.{Conn, tcp}
use getty.Connection.Tcp.{TcpConn}
use getty.Session.State.{Session, owner, flag, session_client_key, ignore_reconnect_key}
use getty.Session.Setters.{get_attribute, set_attribute}
use getty.Session.Lifecycle.{System, reconnect_owner, owner_to_reconnect}
use getty.Session.Lifecycle
use getty.Session.Lifecycle.Stops.{stop-asks}
use getty.Session.Events.{returned, end_of_loop}
use getty.Connection.Net.{Bytes}
use getty.Connection.Tcp
use getty.Session.State.{max_read_buf_len}
use getty.Session.Receive.{
  Reader, Receiver, init_receiver, Exit, running, exited, classify, is_gone, absorb, decode_batch,
  handle_tcp_package,
}
use getty.Session.Handling.{
  Handled, decoded, conclude, after_loop, left_by, handshake_error, handle_tcp,
}

gc_reconnects : (w : System) → (Lifecycle.gc w).reconnects ≡ w.reconnects
unfolding Lifecycle.gc Lifecycle.spawn
gc_reconnects w = elim (Option-cases w.session.attrs) [
  | inl e ↦ ground (arith, e)
  | inr (m, e) ↦ elim (Option-cases w.session.connection) [
    | inl n ↦ ground (arith, e, n)
    | inr (c, n) ↦ ground (arith, e, n)
  ]
]

gc_connection :
    (w : System) → is_some w.session.attrs ≡ true → (Lifecycle.gc w).session.connection ≡ none
unfolding Lifecycle.gc Lifecycle.spawn
gc_connection w e = elim (Option-cases w.session.connection) [
  | inl n ↦ ground (arith, e, n)
  | inr (c, n) ↦ ground (arith, e, n)
]

-- The attributes as the loop left them.
left_by-owner :
    (c : ℕ) (k : Conn) (gone : Bool) (w : System)
    → get_attribute session_client_key w.session ≡ some (owner c)
    → get_attribute ignore_reconnect_key w.session ≡ some (flag false)
    → owner_to_reconnect (left_by k gone w).session ≡ (if gone then none else some c)
unfolding left_by owner_to_reconnect reconnect_owner get_attribute set_attribute
left_by-owner c k gone w own may = elim (Option-cases w.session.attrs) [
  | inl e ↦ absurd (ground (arith, e, own))
  | inr (m, e) ↦ elim (Bool-cases gone) [
    | inl g ↦ ground (arith, e, g, own, may)
    | inr g ↦ ground (arith, e, g, own, may)
  ]
]

left_by_lem :
    (k : Conn) (gone : Bool) (w : System)
    → ((left_by k gone w).session.once ≡ w.session.once)
      × ((left_by k gone w).reconnects ≡ w.reconnects)
      × (is_some (left_by k gone w).session.attrs ≡ is_some w.session.attrs)
unfolding left_by set_attribute
left_by_lem k gone w = elim (Option-cases w.session.attrs) [
  | inl e ↦ ground (arith, e)
  | inr (m, e) ↦ ground (arith, e)
]

stop_attrs : (w : System) → (Lifecycle.stop w).session.attrs ≡ w.session.attrs
unfolding Lifecycle.stop Lifecycle.stop_body Lifecycle.spawn Lifecycle.stop_mark Lifecycle.stop_take
    Lifecycle.stop_shut Lifecycle.stop_call Lifecycle.stop_ask
stop_attrs w = elim (Option-cases (owner_to_reconnect w.session)) [
  | inl e ↦ ground (arith, e)
  | inr (c, e) ↦ ground (arith, e)
]

owned-attrs :
    (c : ℕ) (s : Session)
    → get_attribute session_client_key s ≡ some (owner c)
    → is_some s.attrs ≡ true
unfolding get_attribute
owned-attrs c s h = ground (arith, h)

-- The session as `end_of_loop` counts it.
abbrev counted : System → System
counted w = record w { session = record (w.session) { gr_num = w.session.gr_num - 1 } }

counted-owner : (w : System) → owner_to_reconnect (counted w).session ≡ owner_to_reconnect w.session
unfolding owner_to_reconnect get_attribute
counted-owner w = refl

-- Whether an answer of `recv` is the end of the stream, and whether one of several is.
unfoldable pub is_end : Option Error → Bool
is_end (some (io eof)) = true
is_end _ = false

unfoldable pub saw_end : List (Option Error) → Bool
unfolding is_end
saw_end [] = false
saw_end (a ∷ rest) = is_end a || saw_end rest

is_gone-classify : (a : Option Error) → is_gone (classify a) ≡ is_end a
unfolding is_end classify
is_gone-classify a = ground arith

gone_lem :
    (a : Option Error) (rest : List (Option Error)) (b : Bool)
    → b ≡ saw_end rest
    → (b || is_gone (classify a)) ≡ saw_end (a ∷ rest)
unfolding saw_end
gone_lem a rest b h = ground (arith, h, is_gone-classify a)

module _ {P : Type 0} (read : Reader P) (max : ℕ) where
  -- The attribute is set where the end of the stream was seen.
  abbrev Tells : Receiver P → Type 0
  Tells r = r.ignore_reconnect ≡ saw_end r.answers

  absorb-Tells :
      (r r' : Receiver P) (x : Exit) (d : Bytes × Option Error × TcpConn)
      → absorb read max r d ≡ some (r', x)
      → Tells r
      → Tells r'
  unfolding absorb
  absorb-Tells r r' x ([], a, c) e h = ground (arith, e, gone_lem a r.answers r.ignore_reconnect h)
  absorb-Tells r r' x (b ∷ bs, a, c) e h =
      let buf = r.buffer ++ b ∷ bs in
      elim (Option-cases (decode_batch read (suc (length buf)) max buf)) [
        | inl n ↦ absurd (ground (arith, n, e))
        | inr (out, n) ↦ ground (arith, n, e, gone_lem a r.answers r.ignore_reconnect h)
      ]

  loop-Tells :
      (net : Net) (closed : ℕ → Bool) (k : ℕ) (r r' : Receiver P) (x : Exit)
      → handle_tcp_package read net closed max k r ≡ some (r', x)
      → Tells r
      → Tells r'
  unfolding handle_tcp_package
  loop-Tells net closed zero r r' x e h = ground (arith, e, h)
  loop-Tells net closed (suc k) r r' x e h = elim (Bool-cases (closed k)) [
    | inl c ↦ ground (arith, e, h, c)
    | inr c ↦
        let d = Tcp.recv net (closed k) r.conn max_read_buf_len in
        elim (Option-cases (absorb read max r d)) [
          | inl n ↦ absurd (ground (arith, c, n, e))
          | inr ((r₁, exited y), n) ↦ ground (arith, c, n, e, absorb-Tells r r₁ (exited y) d n h)
          | inr ((r₁, running), n) ↦
              loop-Tells net closed k r₁ r' x (ground (arith, c, n, e))
                (absorb-Tells r r₁ running d n h)
        ]
  ]

-- A client's session over TCP, with the attributes that `connect` sets, whose loop exits while the
-- session was not stopped yet, and whose TLS handshake did not fail: `handlePackage` ends. It asks
-- the owner once to connect again, and does not where an answer of `recv` was the end of the stream; it
-- hands on the packages of the loop, and detaches the connection.
pub handle_tcp-reconnects :
    {P : Type 0} (read : Reader P) (tls : Option (Option IoError)) (net : Net) (closed : ℕ → Bool)
    (max k : ℕ) (tcp_conn : TcpConn) (w : System) (c : ℕ) (r : Receiver P) (e : Option Error)
    → w.session.once ≡ false
    → get_attribute session_client_key w.session ≡ some (owner c)
    → get_attribute ignore_reconnect_key w.session ≡ some (flag false)
    → handshake_error tls ≡ none
    → handle_tcp_package read net closed max k (init_receiver tcp_conn) ≡ some (r, exited e)
    → (h : Handled P) × (handle_tcp (some read) tls net closed max k tcp_conn w ≡ some h)
      × (h.system.reconnects ≡ (if saw_end r.answers then w.reconnects else c ∷ w.reconnects))
      × (h.tasks ≡ map decoded r.tasks)
      × (h.system.session.connection ≡ none)
unfolding handle_tcp after_loop conclude end_of_loop saw_end
handle_tcp-reconnects read tls net closed max k tcp_conn w c r e open_ own may hs run =
    let w₁ = left_by (tcp r.conn) r.ignore_reconnect w in
    let kept = left_by_lem (tcp r.conn) r.ignore_reconnect w in
    let asked = counted-owner w₁ ∙ left_by-owner c (tcp r.conn) r.ignore_reconnect w own may in
    let stopped =
      stop-asks (counted w₁) (if r.ignore_reconnect then none else some c)
        (ground (arith, kept, open_)) asked in
    let over = gc_reconnects (Lifecycle.stop (counted w₁)) in
    let has = owned-attrs c w.session own in
    let tells = loop-Tells read max net closed k (init_receiver tcp_conn) r (exited e) run refl in
    let detached =
      gc_connection (Lifecycle.stop (counted w₁))
        (ground (arith, stop_attrs (counted w₁), kept, has)) in
    (
      conclude (map decoded r.tasks) (returned e) w₁,
      ground (arith, hs, run),
      ground (arith, stopped, over, kept, tells),
      refl,
      detached,
    )
