-- ===== src/Connection/Tcp/Histories.antt =====
-- A TCP connection through any series of its operations: what its codec and its end come to.
use getty.Common.{
  ℕ, ℤ, ◌+◌, ◌≤◌, ◌&&◌, ◌≡◌, sym, subst, Bool, true, false, not, Option, none, some, List, [], ◌∷◌,
  ◌⊎◌, length, u32, Bool-cases, inl, inr, if◌then◌else◌, arith,
}
use getty.Errors.{IoError}
use getty.Connection.Net.{Bytes, concat, Pkg, bytes, batch, udp_context, other, Net}
use getty.Connection.Tcp.{
  TcpConn, Codec, raw, flate, snappy, new_tcp_conn, set_compress_type, finish_codec, close_conn,
  codec_io_error, codec_read_error, flusher_write, write_buffers, conclude, transmit, send,
  read_stream, recv,
}

-- What is called on a connection: `closing` of a `recv` is what `sessionClosing` answers during it.
pub data Op : Type 0 where
  do_send : Pkg → Op
  do_recv : Bool → ℕ → Op
  do_compress : ℤ → Op
  do_close : Op

-- A panic of `SetCompressType` leaves the connection as it was.
abbrev pub keep : TcpConn → Option TcpConn → TcpConn
keep c none = c
keep c (some c') = c'

unfoldable pub step : Net → TcpConn → Op → TcpConn
unfolding send recv set_compress_type close_conn
step net c (do_send p) = (send net c p).2
step net c (do_recv closing size) = (recv net closing c size).2
step net c (do_compress t) = keep c (set_compress_type t c)
step net c do_close = close_conn c

unfoldable pub run : Net → TcpConn → List Op → TcpConn
unfolding step
run net c [] = c
run net c (op ∷ ops) = run net (step net c op) ops

abbrev pub is_raw : Codec → Bool
is_raw raw = true
is_raw flate = false
is_raw snappy = false

pub record Sound (c : TcpConn) : Type 0 where
  pub enabled : c.codec_enabled ≡ not (is_raw c.codec)
  pub broken_enabled : c.codec_broken ≡ true → c.codec_enabled ≡ true
  pub broken_closed : c.codec_broken ≡ true → c.closed ≡ true
  pub closing_once : c.closing ≡ c.close_once
  pub once_closed : c.close_once ≡ true → c.closed ≡ true
  pub finished_once : c.finished ≤ (if c.close_once && c.codec_enabled then 1 else 0)

-- What one operation keeps: the configuration once the stream has started, a break, and the end.
pub record Kept (c c' : TcpConn) : Type 0 where
  pub started : c.stream_started ≡ true → c'.stream_started ≡ true
  pub codec : c.stream_started ≡ true → c'.codec ≡ c.codec
  pub compress : c.stream_started ≡ true → c'.compress ≡ c.compress
  pub broken : c.codec_broken ≡ true → (c'.codec_broken ≡ true) × (c'.delivered ≡ c.delivered)
  pub end : c.close_once ≡ true → (c'.close_once ≡ true) × (c'.finished ≡ c.finished)
  pub ended :
      c'.finished + (if c.close_once then 1 else 0) ≤ c.finished + (if c'.close_once then 1 else 0)

-- What an input or output does to the fields that are neither counters nor bytes.
record Frame (c c' : TcpConn) : Type 0 where
  pub codec : c'.codec ≡ c.codec
  pub enabled : c'.codec_enabled ≡ c.codec_enabled
  pub compress : c'.compress ≡ c.compress
  pub started : c'.stream_started ≡ c.stream_started
  pub closing : c'.closing ≡ c.closing
  pub once : c'.close_once ≡ c.close_once
  pub finished : c'.finished ≡ c.finished
  pub closed : c.closed ≡ true → c'.closed ≡ true
  pub stays : c.codec_broken ≡ true → c'.codec_broken ≡ true
  pub breaks :
      c'.codec_broken ≡ true
      → (c.codec_broken ≡ true) ⊎ ((c.codec_enabled ≡ true) × (c'.closed ≡ true))

codec_io_error-Frame : (c : TcpConn) (e : Option IoError) → Frame c (codec_io_error c e).1
unfolding codec_io_error
codec_io_error-Frame c none = ground arith
codec_io_error-Frame c (some e) = ground arith

codec_read_error-Frame :
    (b : Bool) (c : TcpConn) (e : Option IoError) → Frame c (codec_read_error b c e).1
unfolding codec_read_error
codec_read_error-Frame b c none = codec_io_error-Frame c none
codec_read_error-Frame b c (some e) = ground (arith, codec_io_error-Frame c (some e))

conclude-Frame :
    (c : TcpConn) (plain : Bytes) (len pkgs : ℕ) (r : ℕ × Option IoError)
    → Frame c (conclude c plain len pkgs r).2
unfolding conclude
conclude-Frame c plain len pkgs (n, none) = ground arith
conclude-Frame c plain len pkgs (n, some e) = ground arith

transmit-Frame : (net : Net) (c : TcpConn) (p : Pkg) → Frame c (transmit net c p).2
unfolding transmit
transmit-Frame net c (bytes p) =
    let r = if c.codec_enabled then flusher_write net c.calls p else net.write c.calls p in
    ground (arith, conclude-Frame (record c { calls = c.calls + 2 }) p (length p) 1 r)
transmit-Frame net c (batch bs) =
    let r = if c.codec_enabled then write_buffers net c.calls bs else net.write_to c.calls bs in
    ground (
      arith,
      conclude-Frame (record c { calls = c.calls + length bs + 1 }) (concat bs) r.0 (length bs) r,
    )
transmit-Frame net c (udp_context _ _) = ground arith
transmit-Frame net c other = ground arith

read_stream-Frame :
    (net : Net) (b : Bool) (c : TcpConn) (size : ℕ) → Frame c (read_stream net b c size).2
unfolding read_stream
read_stream-Frame net b c size =
    let r = if c.codec_enabled then net.decode c.calls size else net.read c.calls size in
    ground (
      arith,
      codec_read_error-Frame b
          (record c {
            calls = c.calls + 1;
            stats = record (c.stats) { read_bytes = u32 (c.stats.read_bytes + length r.0) };
          })
          r.1,
    )

send-Frame :
    (net : Net) (c : TcpConn) (p : Pkg)
    → c.codec_broken ≡ false
    → Frame (record c { stream_started = true }) (send net c p).2
unfolding send
send-Frame net c p h =
    let started = record c { stream_started = true; calls = c.calls + 1 } in
    ground (arith, h, transmit-Frame net started p)

send-broken : (net : Net) (c : TcpConn) (p : Pkg) → c.codec_broken ≡ true → (send net c p).2 ≡ c
unfolding send
send-broken net c p h = ground (arith, h)

recv-Frame :
    (net : Net) (b : Bool) (c : TcpConn) (size : ℕ)
    → c.codec_broken ≡ false
    → Frame (record c { stream_started = true }) (recv net b c size).2
unfolding recv
recv-Frame net b c size h =
    let started = record c { stream_started = true; calls = c.calls + 1 } in
    ground (arith, h, read_stream-Frame net b started size)

recv-broken :
    (net : Net) (b : Bool) (c : TcpConn) (size : ℕ)
    → c.codec_broken ≡ true
    → (recv net b c size).2 ≡ c
unfolding recv
recv-broken net b c size h = ground (arith, h)

set_compress_type-Sound : (t : ℤ) (c : TcpConn) → Sound c → Sound (keep c (set_compress_type t c))
unfolding set_compress_type
set_compress_type-Sound t c s = ground (arith, s)

close_conn-Sound : (c : TcpConn) → Sound c → Sound (close_conn c)
unfolding close_conn finish_codec
close_conn-Sound c s = ground (arith, s)

Frame-Sound : (c c' : TcpConn) → Sound c → Frame (record c { stream_started = true }) c' → Sound c'
Frame-Sound c c' s f = ground (arith, s, f)

step-Sound : (net : Net) (c : TcpConn) (op : Op) → Sound c → Sound (step net c op)
unfolding step
step-Sound net c (do_send p) s = elim (Bool-cases c.codec_broken) [
  | inl h ↦ subst Sound (sym (send-broken net c p h)) s
  | inr h ↦ Frame-Sound c (send net c p).2 s (send-Frame net c p h)
]
step-Sound net c (do_recv b size) s = elim (Bool-cases c.codec_broken) [
  | inl h ↦ subst Sound (sym (recv-broken net b c size h)) s
  | inr h ↦ Frame-Sound c (recv net b c size).2 s (recv-Frame net b c size h)
]
step-Sound net c (do_compress t) s = set_compress_type-Sound t c s
step-Sound net c do_close s = close_conn-Sound c s

Kept-refl : (c : TcpConn) → Kept c c
Kept-refl c = ground arith

Kept-trans : (a b c : TcpConn) → Kept a b → Kept b c → Kept a c
Kept-trans a b c h k = ground (arith, h, k)

Frame-Kept :
    (c c' : TcpConn)
    → c.codec_broken ≡ false
    → Frame (record c { stream_started = true }) c'
    → Kept c c'
Frame-Kept c c' h f = ground (arith, h, f)

set_compress_type-Kept : (t : ℤ) (c : TcpConn) → Kept c (keep c (set_compress_type t c))
unfolding set_compress_type
set_compress_type-Kept t c = ground arith

close_conn-Kept : (c : TcpConn) → Kept c (close_conn c)
unfolding close_conn finish_codec
close_conn-Kept c = ground arith

step-Kept : (net : Net) (c : TcpConn) (op : Op) → Kept c (step net c op)
unfolding step
step-Kept net c (do_send p) = elim (Bool-cases c.codec_broken) [
  | inl h ↦ subst (Kept c) (sym (send-broken net c p h)) (Kept-refl c)
  | inr h ↦ Frame-Kept c (send net c p).2 h (send-Frame net c p h)
]
step-Kept net c (do_recv b size) = elim (Bool-cases c.codec_broken) [
  | inl h ↦ subst (Kept c) (sym (recv-broken net b c size h)) (Kept-refl c)
  | inr h ↦ Frame-Kept c (recv net b c size).2 h (recv-Frame net b c size h)
]
step-Kept net c (do_compress t) = set_compress_type-Kept t c
step-Kept net c do_close = close_conn-Kept c

-- Sending, receiving, setting a compression type and closing, in any order, keep this: reads and writes go
-- through a codec exactly where `codecEnabled` says so, only a codec can be broken, a broken one has its
-- socket closed, `closing` is set by the one run of `CloseConn`, which closes the socket, and a codec's
-- stream is ended by that run only.
pub run-Sound : (net : Net) (ops : List Op) (c : TcpConn) → Sound c → Sound (run net c ops)
unfolding run
run-Sound net [] c s = s
run-Sound net (op ∷ ops) c s = run-Sound net ops (step net c op) (step-Sound net c op s)

pub new_tcp_conn-Sound : (id : ℕ) → Sound (new_tcp_conn id)
unfolding new_tcp_conn
new_tcp_conn-Sound id = ground arith

-- Whatever else is called on a connection: behind the first send or receive its codec and its
-- compression type stay what they are; a codec that broke stays broken, and no byte is delivered any more;
-- and the codec's stream is ended at most once, by the first `CloseConn`, and not again behind it.
pub run-Kept : (net : Net) (ops : List Op) (c : TcpConn) → Kept c (run net c ops)
unfolding run
run-Kept net [] c = Kept-refl c
run-Kept net (op ∷ ops) c =
    Kept-trans c (step net c op) (run net (step net c op) ops) (step-Kept net c op)
      (run-Kept net ops (step net c op))
