-- ===== src/Session/Write/Stream.antt =====
-- What `WriteBytes` and `WriteBytesArray` put on each kind of connection.
use getty.Common.{
  ℕ, suc, ◌+◌, ◌≤◌, ◌<◌, ◌≡◌, refl, sym, ◌∙◌, ap, ◌⊎◌, inl, inr, false, Option, none, some, List,
  [], ◌∷◌, ◌++◌, length, take, append_assoc, append-nil, length-append, Option-cases, arith, All,
}
use getty.Errors.{Error, illegal_pkg, io}
use getty.Connection.Net.{Bytes, concat, bytes, batch, Net, IsWriter}
use getty.Connection.Tcp.{TcpConn}
use getty.Connection.Tcp
use getty.Connection.Tcp.Delivery.{Delivers, send-Delivers}
use getty.Connection.Udp.{UdpConn}
use getty.Connection.Udp
use getty.Connection.Ws.{WsConn}
use getty.Connection.Ws
use getty.Connection.Conn.{Conn, tcp, udp, ws}
use getty.Connection.Conn
use getty.Session.State.{Session, unconnected}
use getty.Session.Write.{
  check_websocket_payload, write_fragments, write_bytes_on, write_bytes, write_messages,
  write_bytes_array,
}
use getty.Session.Write.Fragments.{all_fragments-Wrote}

-- `WriteBytes` on an open tcp session always returns. It changes the connection only, the bytes that
-- the connection confirmed grow by the prefix of the package that the count names, in order and
-- whatever the writes below answer, and the count is the whole length where no error is returned.
pub write_bytes-tcp :
    (net : Net)
    → IsWriter net
    → (s : Session) (c : TcpConn) (pkg : Bytes) → s.done ≡ false
    → s.connection ≡ some (tcp c)
    → (n : ℕ) × (e : Option Error) × (c' : TcpConn) × (write_bytes net s pkg
        ≡ some (n, e, record s { connection = some (tcp c') }))
      × Delivers c pkg n e c'
unfolding write_bytes write_bytes_on
write_bytes-tcp net w s c pkg open_ conn =
    let (n, e, c', eq, d) = all_fragments-Wrote net w (unconnected s.end_point) c pkg in
    (n, e, c', ground (arith, eq), d)

-- A batch on an open tcp session is one write; its count and error obey the same rule.
write_bytes_array-tcp :
    (net : Net)
    → IsWriter net
    → (s : Session) (c : TcpConn) (p q : Bytes) (ps : List Bytes) → s.done ≡ false
    → s.connection ≡ some (tcp c)
    → (n : ℕ) × (e : Option Error) × (c' : TcpConn) × (write_bytes_array net s (p ∷ q ∷ ps)
        ≡ some (n, e, record s { connection = some (tcp c') }))
      × Delivers c (concat (p ∷ q ∷ ps)) n e c'
unfolding write_bytes_array Conn.send
write_bytes_array-tcp net w s c p q ps open_ conn =
    let pkg = batch (p ∷ q ∷ ps) in
    let r = Tcp.send net c pkg in (r.0, r.1, r.2, ground arith, send-Delivers net w c pkg)

-- On a WebSocket session `WriteBytes` sends the whole package as one message of any length, or, with
-- an error and a count of 0, none; it sends none where the package is above a write limit.
write_bytes-ws :
    (net : Net) (s : Session) (c : WsConn) (pkg : Bytes)
    → s.done ≡ false
    → s.connection ≡ some (ws c)
    → ((e : Error) × (c' : WsConn) × (write_bytes net s pkg
          ≡ some (0, some e, record s { connection = some (ws c') }))
        × (c'.messages ≡ c.messages))
      ⊎ ((c' : WsConn) × (write_bytes net s pkg
            ≡ some (length pkg, none, record s { connection = some (ws c') }))
          × (c'.messages ≡ c.messages ++ pkg ∷ [])
          × (0 < s.max_write_msg_len → length pkg ≤ s.max_write_msg_len))
unfolding write_bytes write_bytes_on Conn.send Ws.send
write_bytes-ws net s c pkg open_ conn =
    elim (Option-cases (check_websocket_payload s (length pkg))) [
      | inr (e, large) ↦ inl (e, c, ground (arith, large), refl)
      | inl small ↦ elim (Option-cases (net.write_message c.calls pkg)) [
        | inr (e, failed) ↦ inl (
          io e,
          (Ws.send net c (bytes pkg)).2,
          ground (arith, small, failed),
          ground (arith, failed),
        )
        | inl sent ↦ inr (
          (Ws.send net c (bytes pkg)).2,
          ground (arith, small, sent),
          ground (arith, sent),
          unfold check_websocket_payload in ground (arith, small),
        )
      ]
    ]

-- No package can be written to a udp session by `WriteBytes`: its connection takes a `UDPContext`
-- only, so a package that is not empty is refused, and nothing is sent.
write_bytes-udp :
    (net : Net) (s : Session) (c : UdpConn) (b : ℕ) (pkg : Bytes)
    → s.done ≡ false
    → s.connection ≡ some (udp c)
    → write_bytes net s (b ∷ pkg) ≡ some (0, some illegal_pkg, s)
unfolding write_bytes write_bytes_on Conn.send Udp.send write_fragments
write_bytes-udp net s c b pkg open_ conn = ground arith

-- A message that a limit allows; 0 is no limit.
abbrev pub Allowed : Session → Bytes → Type 0
Allowed s p = 0 < s.max_write_msg_len → length p ≤ s.max_write_msg_len

-- The first `k` packages of a batch went out as messages, and `r` reports their bytes.
pub record SentMessages (s : Session) (c : WsConn) (ps : List Bytes) (total : ℕ)
    (r : ℕ × Option Error × WsConn) : Type 0 where
  pub k : ℕ
  pub count : r.0 ≡ total + length (concat (take k ps))
  pub messages : r.2.messages ≡ c.messages ++ take k ps
  pub allowed : All (Allowed s) (take k ps)
  pub all_sent : r.1 ≡ none → take k ps ≡ ps

no_message :
    (s : Session) (c c' : WsConn) (ps : List Bytes) (total : ℕ) (e : Error)
    → c'.messages ≡ c.messages
    → SentMessages s c ps total (total, some e, c')
no_message s c c' ps total e same = record {
  k = 0;
  count = omega arith;
  messages = same ∙ sym (append-nil c.messages);
  allowed = tt;
  all_sent = λ h. cc;
}

one_message :
    (s : Session) (c c' : WsConn) (p : Bytes) (ps : List Bytes) (total n : ℕ)
    (r : ℕ × Option Error × WsConn)
    → c'.messages ≡ c.messages ++ p ∷ []
    → Allowed s p
    → n ≡ length p
    → SentMessages s c' ps (total + n) r
    → SentMessages s c (p ∷ ps) total r
one_message s c c' p ps total n r one small all rest = record {
  k = suc rest.k;
  count = omega (arith, rest.count, length-append p (concat (take rest.k ps)));
  messages =
      rest.messages
      ∙ ap (λ t. t ++ take rest.k ps) one
      ∙ append_assoc c.messages (p ∷ []) (take rest.k ps);
  allowed = (small, rest.allowed);
  all_sent = λ e. ap (◌∷◌ p) (rest.all_sent e);
}

module _ (net : Net) (s : Session) where
  -- The loop keeps to WebSocket connections.
  write_messages-SentMessages :
      (total : ℕ) (ps : List Bytes) (c : WsConn)
      → (r : ℕ × Option Error × WsConn) × (write_messages net s total ps (ws c)
          ≡ (r.0, r.1, ws r.2))
        × SentMessages s c ps total r
  unfolding write_messages Conn.send Ws.send
  write_messages-SentMessages total [] c = (
    (total, none, c),
    refl,
    record {
      k = 0;
      count = omega arith;
      messages = sym (append-nil c.messages);
      allowed = tt;
      all_sent = λ h. refl;
    },
  )
  write_messages-SentMessages total (p ∷ ps) c =
      let sent = Ws.send net c (bytes p) in
      let (r, eq, rest) = write_messages-SentMessages (total + sent.0) ps sent.2 in
      elim (Option-cases (check_websocket_payload s (length p))) [
        | inr (e, large) ↦
            ((total, some e, c), ground (arith, large), no_message s c c (p ∷ ps) total e refl)
        | inl small ↦ elim (Option-cases (net.write_message c.calls p)) [
          | inr (e, failed) ↦ (
            (total, some (io e), sent.2),
            ground (arith, small, failed),
            no_message s c sent.2 (p ∷ ps) total (io e) (ground (arith, failed)),
          )
          | inl out ↦ (
            r,
            ground (arith, small, out, eq),
            one_message s c sent.2 p ps total sent.0 r (ground (arith, out))
                (unfold check_websocket_payload in ground (arith, small)) (ground (arith, out))
                rest,
          )
        ]
      ]

-- On a WebSocket session a batch of two packages or more goes out as a prefix of its packages, each
-- a message of its own within the write limit; the count is the bytes of that prefix, which is the
-- whole batch where no error is returned. The loop changes the connection only.
pub write_bytes_array-ws :
    (net : Net) (s : Session) (c : WsConn) (p q : Bytes) (ps : List Bytes)
    → s.done ≡ false
    → s.connection ≡ some (ws c)
    → (r : ℕ × Option Error × WsConn) × (write_bytes_array net s (p ∷ q ∷ ps)
        ≡ some (r.0, r.1, record s { connection = some (ws r.2) }))
      × SentMessages s c (p ∷ q ∷ ps) 0 r
unfolding write_bytes_array
write_bytes_array-ws net s c p q ps open_ conn =
    let (r, eq, sent) = write_messages-SentMessages net s 0 (p ∷ q ∷ ps) c in
    (r, ground (arith, eq), sent)
