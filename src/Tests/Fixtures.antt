-- ===== src/Tests/Fixtures.antt =====
-- Inputs that the tests share.
use getty.Common.{
  ℕ, zero, suc, ◌≤◌, ◌<◌, ◌≡◌, refl, false, Option, none, some, [], ◌∷◌, ◌++◌, length, take,
  take-append_le, length-append, leb, if◌then◌else◌, arith,
}
use getty.Errors.{IoError, timeout, eof}
use getty.Constants.{tcp_server, udp_client, ws_server}
use getty.Connection.Net.{Bytes, concat, Net, IsWriter}
use getty.Connection.Tcp.{TcpConn, new_tcp_conn}
use getty.Connection.Udp.{UdpConn, new_udp_conn}
use getty.Connection.Ws.{WsConn, new_ws_conn}
use getty.Connection.Conn.{tcp, udp, ws}
use getty.Session.State.{Session, EndPoint, new_conn_session}
use getty.Session.Receive.{Reader}
use getty.Session.Receive.Stream.{IsFraming}

-- A network that takes what it is given, and whose stream brings a split frame and then ends.
abbrev pub inbound : ℕ → Bytes × Option IoError
inbound zero = ([], none)
inbound (suc zero) = (2 ∷ 7 ∷ [], none)
inbound (suc (suc zero)) = ([], none)
inbound (suc (suc (suc zero))) = (8 ∷ 1 ∷ [], none)
inbound (suc (suc (suc (suc n)))) = (9 ∷ [], some eof)

abbrev pub quiet : Net
quiet = record {
  write = λ k p. (length p, none);
  write_to = λ k ps. (length (concat ps), none);
  set_write_deadline = λ k. none;
  encode = λ k p. (length p, none);
  flush = λ k. none;
  write_msg_udp = λ k p a. (length p, none);
  write_message = λ k p. none;
  set_read_deadline = λ k. none;
  read = λ k size. inbound k;
  decode = λ k size. inbound k;
  read_from_udp = λ k. ((inbound k).0, some 9, (inbound k).1);
  next_reader = λ k. none;
  read_message = λ k. ((inbound k).0, none);
}

-- The second write of a connection takes one byte and times out.
abbrev pub slow_write : ℕ → Bytes → ℕ × Option IoError
slow_write zero p = (length p, none)
slow_write (suc n) [] = (0, some timeout)
slow_write (suc n) (b ∷ p) = (1, some timeout)

abbrev pub slow : Net
slow = record quiet { write = slow_write }

slow_write-le : (k : ℕ) (p : Bytes) → (slow_write k p).0 ≤ length p
slow_write-le zero p = omega arith
slow_write-le (suc n) [] = omega arith
slow_write-le (suc n) (b ∷ p) = omega arith

slow_complete : (k : ℕ) (p : Bytes) → (slow_write k p).1 ≡ none → (slow_write k p).0 ≡ length p
slow_complete zero p e = refl
slow_complete (suc n) [] e = cc
slow_complete (suc n) (b ∷ p) e = cc

pub slow-IsWriter : IsWriter slow
slow-IsWriter = record {
  write-le = slow_write-le;
  write_all = slow_complete;
  write_to-le = λ k ps. omega arith;
  write_to_all = λ k ps e. refl;
  encode_all = λ k p e. refl;
}

pub quiet-IsWriter : IsWriter quiet
quiet-IsWriter = record {
  write-le = λ k p. omega arith;
  write_all = λ k p e. refl;
  write_to-le = λ k ps. omega arith;
  write_to_all = λ k ps e. refl;
  encode_all = λ k p e. refl;
}

-- Frames of one length byte and a body.
unfoldable pub read_frame : Reader Bytes
read_frame [] = (none, 0, none)
read_frame (n ∷ body) =
    if leb n (length body) then (some (take n body), suc n, none) else (none, 0, none)

read_frame-progress :
    (buf p : Bytes) (n : ℕ) → read_frame buf ≡ (some p, n, none) → (0 < n) × (n ≤ length buf)
unfolding read_frame
read_frame-progress [] p n h = cc
read_frame-progress (k ∷ body) p n h = ground arith

read_frame-stable :
    (buf more p : Bytes) (n : ℕ)
    → read_frame buf ≡ (some p, n, none)
    → read_frame (buf ++ more) ≡ (some p, n, none)
unfolding read_frame
read_frame-stable [] more p n h = cc
read_frame-stable (k ∷ body) more p n h =
    ground (arith, take-append_le k body more, length-append body more)

pub read_frame-IsFraming : IsFraming read_frame
read_frame-IsFraming = record { progress = read_frame-progress; stable = read_frame-stable }

abbrev pub end_point : ℕ → EndPoint
end_point kind = record { id = 1; kind = kind; task_pool = false }

abbrev pub tcp_conn : TcpConn
tcp_conn = new_tcp_conn 1

abbrev pub udp_conn : UdpConn
udp_conn = new_udp_conn 2

abbrev pub ws_conn : WsConn
ws_conn = new_ws_conn 3

unfoldable pub tcp_session : Session
unfolding new_conn_session
tcp_session = new_conn_session (end_point tcp_server) (tcp tcp_conn)

unfoldable pub udp_session : Session
unfolding new_conn_session
udp_session = new_conn_session (end_point udp_client) (udp udp_conn)

unfoldable pub ws_session : Session
unfolding new_conn_session
ws_session = record (new_conn_session (end_point ws_server) (ws ws_conn)) { max_write_msg_len = 2 }
