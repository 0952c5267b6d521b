-- ===== src/Connection/Tcp.antt =====
-- `gettyTCPConn`: sending, the flushing writers, and how a timeout on a compressed stream breaks it.
pub mod Delivery
pub mod Histories
use getty.Constants.{is_flate_type, is_snappy_type}
use getty.Common.{
  ℤ, ℕ, suc, ◌+◌, ◌≡◌, Bool, true, false, not, ◌&&◌, Option, none, some, List, [], ◌∷◌, ◌++◌, ltb,
  if◌then◌else◌, length, take, u32,
}
use getty.Errors.{IoError, is_timeout, Error, codec_stream_broken, illegal_pkg, io}
use getty.Connection.Net.{Bytes, concat, Pkg, bytes, batch, udp_context, other, Net}
use getty.Connection.Stats.{Stats, init_stats, count_sent}

-- What `reader` and `writer` are: the connection itself, or a codec on the polling reader and writer of
-- Connection/Polling.
pub data Codec : Type 0 where
  raw : Codec
  flate : Codec
  snappy : Codec

-- `close_once` says that the body of `CloseConn` has run, `finished` counts how often it ended the codec's stream,
-- `closed` that the socket was closed. `calls` counts calls of the packages below. `delivered` holds
-- the bytes of the packages that the writer confirmed, in order, before compression.
pub record TcpConn : Type 0 where
  pub stats : Stats
  pub open stats use *
  pub stream_started : Bool
  pub codec_broken : Bool
  pub codec : Codec
  pub closing : Bool
  pub close_once : Bool
  pub finished : ℕ
  pub closed : Bool
  pub calls : ℕ
  pub delivered : Bytes

unfoldable pub new_tcp_conn : ℕ → TcpConn
unfolding init_stats
new_tcp_conn id = record {
  stats = init_stats id;
  stream_started = false;
  codec_broken = false;
  codec = raw;
  closing = false;
  close_once = false;
  finished = 0;
  closed = false;
  calls = 0;
  delivered = [];
}

-- `Write` of `writeFlusher` and of `snappyWriteFlusher`: a failed flush reports 0.
unfoldable pub flusher_write : Net → ℕ → Bytes → ℕ × Option IoError
flusher_write net k p = elim (net.encode k p).1 [
  | some e ↦ (0, some e)
  | none ↦ elim (net.flush (k + 1)) [ some e ↦ (0, some e) | none ↦ ((net.encode k p).0, none) ]
]

-- The loop of `WriteBuffers` from `total` on, and the flush behind it.
unfoldable pub write_buffers_from : Net → ℕ → ℕ → List Bytes → ℕ × Option IoError
write_buffers_from net k total [] = elim (net.flush k) [
  | some e ↦ (0, some e)
  | none ↦ (total, none)
]
write_buffers_from net k total (b ∷ bs) = elim (net.encode k b).1 [
  | some e ↦ (0, some e)
  | none ↦ write_buffers_from net (k + 1) (total + (net.encode k b).0) bs
]

unfoldable pub write_buffers : Net → ℕ → List Bytes → ℕ × Option IoError
unfolding write_buffers_from
write_buffers net k bs = write_buffers_from net k 0 bs

-- `codecIOError`: a timeout on a compressed stream breaks it and closes the socket.
unfoldable pub codec_io_error : TcpConn → Option IoError → Option Error × TcpConn
codec_io_error c none = (none, c)
codec_io_error c (some e) =
    if c.codec_enabled && is_timeout e
    then (some codec_stream_broken, record c { codec_broken = true; closed = true })
    else (some (io e), c)

-- What follows a write of `plain` that returned `(n, e)`; `len` and `pkgs` go to the counters.
unfoldable pub conclude : TcpConn → Bytes → ℕ → ℕ → ℕ × Option IoError → ℕ × Option Error × TcpConn
unfolding codec_io_error count_sent
conclude c plain len pkgs (n, e) =
    let sent = record c { delivered = c.delivered ++ take n plain } in
    let counted : TcpConn = elim e [
      | some _ ↦ sent
      | none ↦ record sent { stats = count_sent len pkgs c.stats }
    ] in
    let (err, c') = codec_io_error counted e in (n, err, c')

-- `Send` behind its two guards.
unfoldable pub transmit : Net → TcpConn → Pkg → ℕ × Option Error × TcpConn
unfolding flusher_write write_buffers conclude
transmit net c (bytes p) =
    let r = if c.codec_enabled then flusher_write net c.calls p else net.write c.calls p in
    conclude (record c { calls = c.calls + 2 }) p (length p) 1 r
transmit net c (batch bs) =
    let r = if c.codec_enabled then write_buffers net c.calls bs else net.write_to c.calls bs in
    conclude (record c { calls = c.calls + length bs + 1 }) (concat bs) r.0 (length bs) r
transmit net c (udp_context _ _) = (0, some illegal_pkg, c)
transmit net c other = (0, some illegal_pkg, c)

-- A broken stream fails fast; a raw connection arms its write deadline.
unfoldable pub send : Net → TcpConn → Pkg → ℕ × Option Error × TcpConn
unfolding transmit
send net c pkg =
    let started = record c { stream_started = true; calls = c.calls + 1 } in
    if c.codec_broken
    then (0, some codec_stream_broken, c)
    else if not c.codec_enabled && ltb 0 c.w_timeout
    then (elim (net.set_write_deadline c.calls) [
      | some e ↦ (0, some (io e), started)
      | none ↦ transmit net started pkg
    ])
    else transmit net started pkg

-- `codecReadError`: while the session closes, a timeout is the signal of `stop`, and passes.
unfoldable pub codec_read_error : Bool → TcpConn → Option IoError → Option Error × TcpConn
unfolding codec_io_error
codec_read_error closing c none = codec_io_error c none
codec_read_error closing c (some e) =
    if c.codec_enabled && (is_timeout e && closing)
    then (some (io e), c)
    else codec_io_error c (some e)

-- The read of `recv`, with its counter and the error that it maps.
unfoldable pub read_stream : Net → Bool → TcpConn → ℕ → Bytes × Option Error × TcpConn
unfolding codec_read_error
read_stream net closing c size =
    let r = if c.codec_enabled then net.decode c.calls size else net.read c.calls size in
    let counted = record c {
      calls = c.calls + 1;
      stats = record (c.stats) { read_bytes = u32 (c.stats.read_bytes + length r.0) };
    } in
    let (err, c') = codec_read_error closing counted r.1 in (r.0, err, c')

-- `recv` into a buffer of the given size; `closing` is `sessionClosing`. Only a raw connection has a
-- deadline set.
unfoldable pub recv : Net → Bool → TcpConn → ℕ → Bytes × Option Error × TcpConn
unfolding read_stream
recv net closing c size =
    let started = record c { stream_started = true; calls = c.calls + 1 } in
    if c.codec_broken
    then ([], some codec_stream_broken, c)
    else if not c.codec_enabled && ltb 0 c.r_timeout
    then (elim (net.set_read_deadline c.calls) [
      | some e ↦ ([], some (io e), started)
      | none ↦ read_stream net closing started size
    ])
    else read_stream net closing started size

-- `SetCompressType` behind its checks. The pollers that it makes are those of Connection/Polling.
unfoldable pub install : Codec → ℤ → TcpConn → TcpConn
install k t c = record c {
  codec = k;
  stats = record (c.stats) { codec_enabled = true; compress = t };
}

-- `SetCompressType`; `none` is the panic, on a stream that has started and on a type that is none of the
-- constants. `CompressNone` installs a codec too.
unfoldable pub set_compress_type : ℤ → TcpConn → Option TcpConn
unfolding install
set_compress_type t c =
    if c.stream_started
    then none
    else if is_flate_type t
    then some (install flate t c)
    else if is_snappy_type t
    then some (install snappy t c)
    else none

-- `Close` of a flushing writer, in `CloseConn`: it ends the codec's stream. What it answers is logged.
unfoldable pub finish_codec : TcpConn → TcpConn
finish_codec c = elim c.codec [
  | raw ↦ c
  | flate ↦ record c { finished = c.finished + 1; calls = c.calls + 1 }
  | snappy ↦ record c { finished = c.finished + 1; calls = c.calls + 1 }
]

-- `CloseConn`, whose body runs once; a broken codec is not flushed.
unfoldable pub close_conn : TcpConn → TcpConn
unfolding finish_codec
close_conn c =
    let entered = record c { close_once = true; closing = true } in
    let flushed = if c.codec_broken then entered else finish_codec entered in
    if c.close_once then c else record flushed { closed = true }
