-- ===== src/Session/Handling/Idle.antt =====
-- What the listener hears when a session is closed whose peer says nothing.
use getty.Common.{
  ℕ, zero, suc, pos, map, ◌+◌, ◌<◌, ◌⊎◌, ◌||◌, Option-cases, ◌≡◌, refl, Bool, true, false, Option,
  none, some, [], ◌∷◌, is_some, inl, inr, arith,
}
use getty.Errors.{Error, io, timeout}
use getty.Connection.Net.{Bytes, Net}
use getty.Connection.Conn.{Conn, tcp, udp, ws}
use getty.Connection.Tcp.{TcpConn, read_stream, codec_read_error, codec_io_error}
use getty.Connection.Tcp
use getty.Connection.Udp.{UdpConn, read_datagram}
use getty.Connection.Udp
use getty.Connection.Ws.{WsConn, thread_safe_read_message}
use getty.Connection.Ws
use getty.Session.State.{max_read_buf_len}
use getty.Session.Limits.{udp_read_buffer_size}
use getty.Session.Setters.{set_attribute}
use getty.Session.Lifecycle.{System}
use getty.Session.Events.{on_error, on_close, returned, end_of_loop, last_events}
use getty.Session.Receive.{
  Reader, Receiver, init_receiver, running, exited, exit_idle, classify, is_gone, absorb,
  handle_tcp_package,
}
use getty.Session.Receive.Udp.{
  UdpReceiver, init_udp_receiver, absorb_datagram, datagram_exit, handle_udp_package,
}
use getty.Session.Receive.Ws.{
  WsReceiver, init_ws_receiver, absorb_message, message_exit, handle_ws_package,
}
use getty.Session.Handling.{
  Handled, decoded, context, message, conclude, after_loop, left_by, handshake_error, handle_tcp,
  handle_udp, handle_ws,
}

-- A network on which every read times out, with nothing read, and deadlines can be set.
pub record IsIdle (net : Net) : Type 0 where
  pub stream : (j size : ℕ) → net.read j size ≡ ([], some timeout)
  pub datagrams : (j : ℕ) → (net.read_from_udp j).2 ≡ some timeout
  pub messages : (j : ℕ) → net.next_reader j ≡ some timeout
  pub deadlines : (j : ℕ) → net.set_read_deadline j ≡ none

-- What `IsClosed` answers to a loop whose session is closed during the last of its reads.
pub record ClosesLast (closed : ℕ → Bool) : Type 0 where
  pub last : closed 0 ≡ true
  pub before : (j : ℕ) → closed (suc j) ≡ false

udp_recv :
    (net : Net)
    → IsIdle net
    → (c : UdpConn) (size : ℕ) → (Udp.recv net c size).2 ≡ some (io timeout)
unfolding Udp.recv read_datagram
udp_recv net idle c size =
    ground (arith, idle.deadlines c.calls, idle.datagrams c.calls, idle.datagrams (c.calls + 1))

ws_recv :
    (net : Net) → IsIdle net → (c : WsConn) (max : ℕ) → (Ws.recv net c max).1 ≡ some (io timeout)
unfolding Ws.recv thread_safe_read_message
ws_recv net idle c max = ground (arith, idle.messages c.calls)

-- A connection without a codec.
abbrev pub IsRaw : TcpConn → Type 0
IsRaw c = (c.codec_enabled ≡ false) × (c.codec_broken ≡ false)

tcp_recv :
    (net : Net)
    → IsIdle net
    → (b : Bool) (c : TcpConn) (size : ℕ) → IsRaw c
    → ((Tcp.recv net b c size).0 ≡ [])
      × ((Tcp.recv net b c size).1 ≡ some (io timeout))
      × IsRaw (Tcp.recv net b c size).2
unfolding Tcp.recv read_stream codec_read_error codec_io_error
tcp_recv net idle b c size raw =
    ground
      (arith, raw, idle.deadlines c.calls, idle.stream c.calls size, idle.stream (c.calls + 1) size)

module _ {P : Type 0} (read : Reader P) (max : ℕ) where
  absorb_timeout :
      (r : UdpReceiver P) (d : Bytes × Option ℕ × Option Error × UdpConn)
      → d.2 ≡ some (io timeout)
      → ((absorb_datagram read max r d).0.err ≡ some (io timeout))
        × ((absorb_datagram read max r d).1 ≡ running)
  unfolding absorb_datagram datagram_exit
  absorb_timeout r (bs, peer, none, c) h = cc
  absorb_timeout r (bs, peer, some e, c) h = ground (arith, h)

  udp_rounds :
      (net : Net) (closed : ℕ → Bool) (k : ℕ) (r : UdpReceiver P)
      → IsIdle net
      → ClosesLast closed
      → (r.err ≡ some (io timeout)) ⊎ (0 < k)
      → (handle_udp_package read max net closed (suc k) r).1 ≡ exited (some (io timeout))
  unfolding handle_udp_package
  udp_rounds net closed zero r idle w h = ground (arith, w.last, h)
  udp_rounds net closed (suc k) r idle w h =
      let d = Udp.recv net r.conn (udp_read_buffer_size (pos max)) in
      let round = absorb_timeout r d (udp_recv net idle r.conn (udp_read_buffer_size (pos max))) in
      ground (
        arith,
        w.before k,
        round,
        udp_rounds net closed k (absorb_datagram read max r d).0 idle w (inl round.0),
      )

  tcp_absorb :
      (r : Receiver P) (d : Bytes × Option Error × TcpConn)
      → d.0 ≡ []
      → d.1 ≡ some (io timeout)
      → IsRaw d.2
      → (r' : Receiver P) × (absorb read max r d ≡ some (r', running)) × IsRaw r'.conn
  unfolding absorb exit_idle classify
  tcp_absorb r ([], none, c) h t raw = cc
  tcp_absorb r ([], some e, c) h t raw = (
    record r {
      conn = c;
      ignore_reconnect = r.ignore_reconnect || is_gone (classify (some e));
      answers = some e ∷ r.answers;
    },
    ground (arith, t),
    raw,
  )
  tcp_absorb r (b ∷ bs, e, c) h t raw = cc

  tcp_rounds :
      (net : Net) (closed : ℕ → Bool) (k : ℕ) (r : Receiver P)
      → IsIdle net
      → ClosesLast closed
      → IsRaw r.conn
      → (r' : Receiver P) × (handle_tcp_package read net closed max (suc k) r
          ≡ some (r', exited none))
  unfolding handle_tcp_package
  tcp_rounds net closed zero r idle w raw = (r, ground (arith, w.last))
  tcp_rounds net closed (suc k) r idle w raw =
      let d = Tcp.recv net (closed (suc k)) r.conn max_read_buf_len in
      let (none_read, late, raw') =
        tcp_recv net idle (closed (suc k)) r.conn max_read_buf_len raw in
      let (r₁, eq, raw₁) = tcp_absorb r d none_read late raw' in
      let (r', rest) = tcp_rounds net closed k r₁ idle w raw₁ in
      (r', ground (arith, w.before k, eq, rest))

module _ {P : Type 0} (reader : Option (Reader P)) (max : ℕ) where
  absorb_idle :
      (r : WsReceiver P) (d : Bytes × Option Error × WsConn)
      → d.1 ≡ some (io timeout)
      → (absorb_message reader max r d).1 ≡ running
  unfolding absorb_message message_exit
  absorb_idle r (bs, none, c) h = cc
  absorb_idle r (bs, some e, c) h = ground (arith, h)

  ws_rounds :
      (net : Net) (closed : ℕ → Bool) (k : ℕ) (r : WsReceiver P)
      → IsIdle net
      → ClosesLast closed
      → (handle_ws_package reader net closed (λ j. max) (suc k) r).1 ≡ exited none
  unfolding handle_ws_package
  ws_rounds net closed zero r idle w = ground (arith, w.last)
  ws_rounds net closed (suc k) r idle w =
      let d = Ws.recv net r.conn max in
      ground (
        arith,
        w.before k,
        absorb_idle r d (ws_recv net idle r.conn max),
        ws_rounds net closed k (absorb_message reader max r d).0 idle w,
      )

left_by-listener :
    (c : Conn) (gone : Bool) (w : System) → (left_by c gone w).session.listener ≡ w.session.listener
unfolding left_by set_attribute
left_by-listener c true w = elim (Option-cases w.session.attrs) [
  | inl e ↦ ground (arith, e)
  | inr (m, e) ↦ ground (arith, e)
]
left_by-listener c false w = refl

-- A session with a listener whose peer says nothing, over a network on which reads time out, is closed while its
-- loop waits in a read, the first one or a later one. On tcp without a codec and on WebSocket the listener
-- gets `OnClose` and no error. On udp it gets `OnError` with that timeout before, since the loop returns the
-- error of its last round.
pub idle_close :
    {P : Type 0} (read : Reader P) (max n : ℕ) (net : Net) (closed : ℕ → Bool) (v : System)
    (c : TcpConn) (d : UdpConn) (s : WsConn)
    → IsIdle net
    → ClosesLast closed
    → IsRaw c
    → is_some v.session.listener ≡ true
    → ((h : Handled P) × (handle_tcp (some read) none net closed max (suc (suc n)) c v ≡ some h)
        × (h.events ≡ on_close ∷ []))
      × ((h : Handled P) × (handle_ws (some read) net closed max (suc (suc n)) s v ≡ some h)
          × (h.events ≡ on_close ∷ []))
      × ((h : Handled P) × (handle_udp (some read) net closed max (suc (suc n)) d v ≡ some h)
          × (h.events ≡ on_error (io timeout) ∷ on_close ∷ []))
unfolding handle_tcp handle_udp handle_ws after_loop conclude end_of_loop last_events
    handshake_error
idle_close read max n net closed v c d s idle w raw heard =
    let (r, over) = tcp_rounds read max net closed (suc n) (init_receiver c) idle w raw in
    let ws_over = ws_rounds (some read) max net closed (suc n) (init_ws_receiver s) idle w in
    let udp_over =
      udp_rounds read max net closed (suc n) (init_udp_receiver d) idle w (inr (omega arith)) in
    let ws_end =
      (handle_ws_package (some read) net closed (λ j. max) (suc (suc n)) (init_ws_receiver s)).0 in
    let udp_end = (handle_udp_package read max net closed (suc (suc n)) (init_udp_receiver d)).0 in
    (
      (
        conclude (map decoded r.tasks) (returned none) (left_by (tcp r.conn) r.ignore_reconnect v),
        ground (arith, over),
        ground (arith, heard, left_by-listener (tcp r.conn) r.ignore_reconnect v),
      ),
      (
        conclude (map message ws_end.tasks) (returned none) (left_by (ws ws_end.conn) false v),
        ground (arith, ws_over),
        ground (arith, heard, left_by-listener (ws ws_end.conn) false v),
      ),
      (
        conclude (map context udp_end.tasks) (returned (some (io timeout)))
            (left_by (udp udp_end.conn) false v),
        ground (arith, udp_over),
        ground (arith, heard, left_by-listener (udp udp_end.conn) false v),
      ),
    )
