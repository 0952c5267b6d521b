-- ===== src/Session/Receive/Ws.antt =====
-- `handleWSPackage`: each message stands for itself.
use getty.Common.{
  ℕ, zero, suc, ◌⊎◌, inl, inr, Bool, ◌&&◌, Option, none, some, List, [], ◌∷◌, ◌++◌, ltb,
  if◌then◌else◌,
}
use getty.Errors.{Error, timeout, io, msg_too_long}
use getty.Connection.Net.{Bytes, Net}
use getty.Connection.Ws.{WsConn}
use getty.Connection.Ws
use getty.Session.Receive.{Reader, Decoded, Exit, running, exited}

-- The loop's variables: the connection, the tasks, and the messages that `recv` returned, each with the
-- limit that was read for its round. A task is a package or, where the session has no reader, a message.
pub record WsReceiver (P : Type 0) : Type 0 where
  pub conn : WsConn
  pub tasks : List (P ⊎ Bytes)
  pub received : List (ℕ × Bytes)

abbrev pub init_ws_receiver : {P : Type 0} → WsConn → WsReceiver P
init_ws_receiver c = record { conn = c; tasks = []; received = [] }

module _ {P : Type 0} (reader : Option (Reader P)) where
  -- The error of decoding one message.
  unfoldable pub message_error : ℕ → Decoded P → Option Error
  message_error max (pkg, n, some e) = some e
  message_error max (pkg, n, none) = if ltb 0 max && ltb max n then some msg_too_long else none

  -- What becomes of one message.
  unfoldable pub decode_message : ℕ → Bytes → List (P ⊎ Bytes)
  unfolding message_error
  decode_message max bs = elim reader [
    | none ↦ inr bs ∷ []
    | some read ↦ elim (message_error max (read bs)) [
      | some e ↦ []
      | none ↦ elim (read bs).0 [ none ↦ [] | some p ↦ inl p ∷ [] ]
    ]
  ]

  -- The loop goes on behind a timeout, and returns another error.
  unfoldable pub message_exit : Error → Exit
  message_exit (io timeout) = running
  message_exit e = exited (some e)

  unfoldable pub absorb_message :
      ℕ → WsReceiver P → Bytes × Option Error × WsConn → WsReceiver P × Exit
  unfolding message_exit
  absorb_message max r (bs, some e, c) = (record r { conn = c }, message_exit e)
  absorb_message max r (bs, none, c) = (
    record r {
      conn = c;
      tasks = r.tasks ++ decode_message max bs;
      received = r.received ++ (max, bs) ∷ [];
    },
    running,
  )

  -- The loop for a number of rounds: with k rounds left `closed k` is what `IsClosed` answers, and `max k`
  -- the limit.
  unfoldable pub handle_ws_package :
      Net → (ℕ → Bool) → (ℕ → ℕ) → ℕ → WsReceiver P → WsReceiver P × Exit
  unfolding absorb_message
  handle_ws_package net closed max zero r = (r, running)
  handle_ws_package net closed max (suc k) r =
      let round = absorb_message (max k) r (Ws.recv net r.conn (max k)) in
      let rest = handle_ws_package net closed max k round.0 in
      if closed k then (r, exited none) else (elim round.1 [ exited e ↦ round | running ↦ rest ])
