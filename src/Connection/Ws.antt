-- ===== src/Connection/Ws.antt =====
-- `gettyWSConn`: each `Send` is one WebSocket message.
pub mod Pings
use getty.Constants.{is_flate_type}
use getty.Common.{
  ℤ, u32, ltb, if◌then◌else◌, ◌&&◌, ℕ, ◌+◌, Bool, true, false, Option, none, some, length, List, [],
  ◌∷◌, ◌++◌,
}
use getty.Errors.{IoError, Error, illegal_pkg, read_limit, io}
use getty.Connection.Net.{Bytes, Pkg, bytes, batch, udp_context, other, Net}
use getty.Connection.Stats.{Stats, init_stats, count_sent, update_active}

-- `compressed` is what `EnableWriteCompression` was last called with. `messages` are the binary messages that went out, newest last.
pub record WsConn : Type 0 where
  pub stats : Stats
  pub open stats use *
  pub stream_started : Bool
  pub compressed : Bool
  pub closed : Bool
  pub calls : ℕ
  pub messages : List Bytes

unfoldable pub new_ws_conn : ℕ → WsConn
unfolding init_stats
new_ws_conn id = record {
  stats = init_stats id;
  stream_started = false;
  compressed = false;
  closed = false;
  calls = 0;
  messages = [];
}

-- A failure to set the write deadline is logged only, so it does not show here.
unfoldable pub write_message : Net → WsConn → Bytes → Option IoError × WsConn
write_message net c p =
    (net.write_message c.calls p, record c { stream_started = true; calls = c.calls + 1 })

unfoldable pub send : Net → WsConn → Pkg → ℕ × Option Error × WsConn
unfolding write_message count_sent
send net c (bytes p) =
    let (e, c') = write_message net c p in
    elim e [
      | some err ↦ (0, some (io err), c')
      | none ↦ (
        length p,
        none,
        record c' { stats = count_sent (length p) 1 c'.stats; messages = c'.messages ++ p ∷ [] },
      )
    ]
send net c (batch _) = (0, some illegal_pkg, c)
send net c (udp_context _ _) = (0, some illegal_pkg, c)
send net c other = (0, some illegal_pkg, c)

-- `threadSafeReadMessage`: the read stops one byte behind the limit, where there is one.
unfoldable pub thread_safe_read_message : Net → WsConn → ℕ → Bytes × Option Error × WsConn
thread_safe_read_message net c max =
    let started = record c { stream_started = true; calls = c.calls + 2 } in
    let (bs, e) = net.read_message (c.calls + 1) in
    elim (net.next_reader c.calls) [
      | some err ↦ ([], some (io err), started)
      | none ↦
          if ltb 0 max && ltb max (length bs)
          then ([], some read_limit, started)
          else (elim e [ some err ↦ ([], some (io err), started) | none ↦ (bs, none, started) ])
    ]

unfoldable pub recv : Net → WsConn → ℕ → Bytes × Option Error × WsConn
unfolding thread_safe_read_message
recv net c max =
    let (bs, e, c') = thread_safe_read_message net c max in
    elim e [
      | some err ↦ (bs, some err, c')
      | none ↦ (
        bs,
        none,
        record c' {
          stats = record (c'.stats) { read_bytes = u32 (c'.stats.read_bytes + length bs) };
        },
      )
    ]

-- `SetCompressType`; `none` is the panic, on snappy or an unknown type and on a stream that has started. A
-- failure of `SetCompressionLevel` is logged only.
unfoldable pub set_compress_type : ℤ → WsConn → Option WsConn
set_compress_type t c =
    if is_flate_type t
    then (if c.stream_started
        then none
        else (some (record c { compressed = true; stats = record (c.stats) { compress = t } })))
    else none

-- `CloseConn`: a close frame by the common path for writes, and the end of the socket, each time.
unfoldable pub close_conn : Net → Bytes → WsConn → WsConn
unfolding write_message
close_conn net frame c = record (write_message net c frame).1 { closed = true }

-- What the code does with errors of the packages errors and websocket: `WithStack` annotates an error that
-- is not nil, and `handlePing` looks for `ErrCloseSent` and for a timeout of a `net.Error`.
pub record Annotation : Type 1 where
  pub Annotated : Type 0
  pub with_stack : IoError → Annotated
  pub is_close_sent : Annotated → Bool
  pub is_net_timeout : Annotated → Bool

module _ (a : Annotation) where
  -- `writePing` and `writePong`.
  unfoldable pub write_control : Net → WsConn → Bytes → Option a.Annotated × WsConn
  unfolding write_message
  write_control net c message =
      let (e, c') = write_message net c message in
      (elim e [ none ↦ none | some err ↦ some (a.with_stack err) ], c')

  -- `handlePing`, at the time `now`; the outer `WithStack` is not shown, since it keeps nil and non-nil.
  unfoldable pub handle_ping : Net → ℕ → WsConn → Bytes → Option a.Annotated × WsConn
  unfolding write_control update_active
  handle_ping net now c message =
      let (e, c') = write_control net c message in
      let refreshed = record c' { stats = update_active now c'.stats } in
      elim e [
        | none ↦ (none, refreshed)
        | some err ↦
            if a.is_close_sent err
            then (none, refreshed)
            else if a.is_net_timeout err
            then (none, refreshed)
            else (some err, c')
      ]

-- `handlePong`.
unfoldable pub handle_pong : ℕ → WsConn → WsConn
unfolding update_active
handle_pong now c = record c { stats = update_active now c.stats }
