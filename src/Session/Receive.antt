-- ===== src/Session/Receive.antt =====
-- `handleTCPPackage` of session.go: the loop that reads a stream and cuts packages from it.
pub mod Stream
pub mod Loop
pub mod Limits
pub mod Udp
pub mod Datagrams
pub mod Ws
pub mod Messages
use getty.Common.{
  ℕ, zero, suc, ◌+◌, Bool, true, false, ◌||◌, Option, none, some, List, [], ◌∷◌, ◌++◌, ltb, ◌==◌,
  if◌then◌else◌, length, drop,
}
use getty.Errors.{Error, IoError, is_timeout, timeout, eof, failure, io, msg_too_long}
use getty.Connection.Net.{Bytes, Net}
use getty.Connection.Tcp.{TcpConn}
use getty.Connection.Tcp
use getty.Session.State.{max_read_buf_len}

-- A result of `Reader.Read`: a package or nil, a length, and an error or nil.
abbrev pub Decoded : Type 0 → Type 0
Decoded P = Option P × ℕ × Option Error

-- The decoder of the application, as a function of the bytes that it is shown.
abbrev pub Reader : Type 0 → Type 0
Reader P = Bytes → Decoded P

-- The loop's variables: the connection, the buffer, the packages handed to `addTask` in order, and
-- whether the attribute was set that stops a client from connecting again. `received` is all that
-- `recv` returned so far, and `answers` the errors or nils, the last one first.
pub record Receiver (P : Type 0) : Type 0 where
  pub conn : TcpConn
  pub buffer : Bytes
  pub tasks : List P
  pub ignore_reconnect : Bool
  pub received : Bytes
  pub answers : List (Option Error)

abbrev pub init_receiver : {P : Type 0} → TcpConn → Receiver P
init_receiver c = record {
  conn = c;
  buffer = [];
  tasks = [];
  ignore_reconnect = false;
  received = [];
  answers = [];
}

-- How the error of `recv` is read: a timeout goes on, the end of the stream exits with no error, and
-- any other error exits.
pub data ReadEnd : Type 0 where
  retry : ReadEnd
  peer_gone : ReadEnd
  fatal : Error → ReadEnd

unfoldable pub classify : Option Error → ReadEnd
classify none = retry
classify (some (io timeout)) = retry
classify (some (io eof)) = peer_gone
classify (some e) = fatal e

-- The loop goes on, or exits with the error that it returns.
pub data Exit : Type 0 where
  running : Exit
  exited : Option Error → Exit

-- The exit behind a read with no bytes: nothing was decoded.
unfoldable pub exit_idle : ReadEnd → Exit
exit_idle retry = running
exit_idle peer_gone = exited none
exit_idle (fatal e) = exited (some e)

-- The exit behind a read with bytes: the error is the decoder's, which replaced that of the read.
unfoldable pub exit_decoded : ReadEnd → Option Error → Exit
exit_decoded w (some e) = exited (some e)
exit_decoded retry none = running
exit_decoded peer_gone none = exited none
exit_decoded (fatal e) none = exited none

abbrev pub is_gone : ReadEnd → Bool
is_gone retry = false
is_gone peer_gone = true
is_gone (fatal e) = false

-- What decoding one batch comes to: the bytes that are left, the packages in order, and the error.
abbrev pub Batch : Type 0 → Type 0
Batch P = Bytes × List P × Option Error

module _ {P : Type 0} (read : Reader P) where
  -- The error of one decoding, with the two limits; a limit of 0 is none.
  unfoldable pub limit_error : ℕ → Bytes → Decoded P → Option Error
  limit_error max buf (pkg, len, some e) = some e
  limit_error max buf (pkg, len, none) =
      if max == 0 then none else if ltb max len then some msg_too_long else (elim pkg [
        | some p ↦ none
        | none ↦ if ltb max (length buf) then some msg_too_long else none
      ])

  -- The inner loop, `for pktBuf.Len() > 0`; `none` means that the fuel ran out.
  unfoldable pub decode_batch : ℕ → ℕ → Bytes → Option (Batch P)
  decode_batch fuel max [] = some ([], [], none)
  decode_batch zero max (b ∷ buf) = none
  decode_batch (suc fuel) max (b ∷ buf) =
      let r = read (b ∷ buf) in
      elim (limit_error max (b ∷ buf) r) [
        | some e ↦ some (b ∷ buf, [], some e)
        | none ↦ elim r.0 [
          | none ↦ some (b ∷ buf, [], none)
          | some p ↦ elim (decode_batch fuel max (drop r.1 (b ∷ buf))) [
            | none ↦ none
            | some (rest, ps, e) ↦ some (rest, p ∷ ps, e)
          ]
        ]
      ]

  -- The variables behind a decoding.
  abbrev pub taken : Receiver P → Bytes → Option Error → TcpConn → Batch P → Receiver P
  taken r got a c (rest, ps, e) = record {
    conn = c;
    buffer = rest;
    tasks = r.tasks ++ ps;
    ignore_reconnect = r.ignore_reconnect || is_gone (classify a);
    received = r.received ++ got;
    answers = a ∷ r.answers;
  }

  -- The end of a round, on what `recv` returned.
  unfoldable pub absorb :
      ℕ → Receiver P → Bytes × Option Error × TcpConn → Option (Receiver P × Exit)
  unfolding classify exit_idle exit_decoded
  absorb max r ([], e, c) = some (
    record r {
      conn = c;
      ignore_reconnect = r.ignore_reconnect || is_gone (classify e);
      answers = e ∷ r.answers;
    },
    exit_idle (classify e),
  )
  absorb max r (b ∷ bs, e, c) =
      let buf = r.buffer ++ b ∷ bs in
      elim (decode_batch (suc (length buf)) max buf) [
        | none ↦ none
        | some out ↦ some (taken r (b ∷ bs) e c out, exit_decoded (classify e) out.2)
      ]

  -- The outer loop for a number of rounds; `closed k` is what `IsClosed` answers with k rounds left.
  -- `none` means that the inner loop did not end.
  unfoldable pub handle_tcp_package :
      Net → (ℕ → Bool) → ℕ → ℕ → Receiver P → Option (Receiver P × Exit)
  handle_tcp_package net closed max zero r = some (r, running)
  handle_tcp_package net closed max (suc k) r =
      if closed k
      then some (r, exited none)
      else (elim (absorb max r (Tcp.recv net (closed k) r.conn max_read_buf_len)) [
        | none ↦ none
        | some (r', exited e) ↦ some (r', exited e)
        | some (r', running) ↦ handle_tcp_package net closed max k r'
      ])
