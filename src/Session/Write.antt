-- ===== src/Session/Write.antt =====
-- `Send`, `WriteBytes` and `WriteBytesArray` of session.go. Each holds `packetLock` to its end.
pub mod Fragments
pub mod Stream
use getty.Common.{
  ℕ, zero, suc, ◌+◌, ◌-◌, ◌/◌, ◌≡◌, Bool, true, false, Option, none, some, List, [], ◌∷◌, ◌++◌, ltb,
  leb, if◌then◌else◌, length, take, drop, ◌==◌, ◌||◌,
}
use mathlib.Core.Option
use getty.Errors.{Error, session_closed, payload_too_large}
use getty.Connection.Net.{Bytes, concat, Pkg, bytes, batch, udp_context, other, Net}
use getty.Connection.Stats.{inc_write_pkg_num}
use getty.Connection.Conn.{Conn, tcp, udp, ws, stats_of, with_stats}
use getty.Connection.Conn
use getty.Session.State.{Session, is_closed, unconnected, max_packet_len}

-- `checkWebsocketPayload`.
unfoldable pub check_websocket_payload : Session → ℕ → Option Error
check_websocket_payload s n =
    if s.max_write_msg_len == 0 || leb n s.max_write_msg_len then none else some payload_too_large

-- `websocketPayloadTooLarge`.
unfoldable pub websocket_payload_too_large : Session → ℕ → Bool
websocket_payload_too_large s n =
    if ltb 0 s.max_write_msg_len then ltb s.max_write_msg_len n else false

-- A count, an error and the session, whose connection is the one after the write.
abbrev pub Written : Type 0
Written = ℕ × Option Error × Session

abbrev written : Session → ℕ × Option Error × Conn → Written
written s (n, e, c) = (n, e, record s { connection = some c })

-- The end of `s.Send`, on the connection that it saw.
unfoldable pub send_on : Net → Session → Conn → Pkg → Written
unfolding check_websocket_payload
send_on net s (ws c) (bytes p) = elim (check_websocket_payload s (length p)) [
  | some e ↦ (0, some e, s)
  | none ↦ written s (Conn.send net (unconnected s.end_point) (ws c) (bytes p))
]
send_on net s c p = written s (Conn.send net (unconnected s.end_point) c p)

-- `s.Send`. A connection that is gone sends nothing, and no error is returned.
unfoldable pub send : Net → Session → Pkg → Written
unfolding send_on
send net s pkg = elim s.connection [ none ↦ (0, none, s) | some c ↦ send_on net s c pkg ]

-- The loop of `WriteBytes` and the write behind it, on a fuel of rounds: `left` and `sent` are
-- `leftPackageSize` and `writeSize`.
unfoldable pub write_fragments :
    ℕ → Net → Bool → Bytes → ℕ → ℕ → Conn → Option (ℕ × Option Error × Conn)
write_fragments zero net u pkg left sent c = none
write_fragments (suc fuel) net u pkg left sent c =
    let fragment = Conn.send net u c (bytes (take max_packet_len (drop sent pkg))) in
    let n = fragment.0 in
    let next : Option (ℕ × Option Error × Conn) = elim fragment.1 [
      | some e ↦ some (sent + n, some e, fragment.2)
      | none ↦
          write_fragments fuel net u pkg (left - max_packet_len) (sent + max_packet_len) fragment.2
    ] in
    if ltb max_packet_len left
    then next
    else if left == 0
    then some (sent, none, c)
    else (let last = Conn.send net u c (bytes (drop sent pkg)) in
        elim last.1 [
          | some e ↦ some (sent + last.0, some e, last.2)
          | none ↦ some (length pkg, none, last.2)
        ])

-- The rounds that a package needs.
abbrev pub rounds : Bytes → ℕ
rounds pkg = suc (length pkg / max_packet_len)

-- `WriteBytes` on the connection that it saw; `none` would be a loop that ran out of fuel.
unfoldable pub write_bytes_on : Net → Session → Bytes → Conn → Option Written
unfolding check_websocket_payload
write_bytes_on net s pkg (ws c) = elim (check_websocket_payload s (length pkg)) [
  | some e ↦ some (0, some e, s)
  | none ↦
      let sent = Conn.send net (unconnected s.end_point) (ws c) (bytes pkg) in
      elim sent.1 [
        | some e ↦ some (written s sent)
        | none ↦ some (length pkg, none, record s { connection = some sent.2 })
      ]
]
write_bytes_on net s pkg c =
    Option.map (written s)
      (write_fragments (rounds pkg) net (unconnected s.end_point) pkg (length pkg) 0 c)

unfoldable pub write_bytes : Net → Session → Bytes → Option Written
unfolding write_bytes_on
write_bytes net s pkg =
    if is_closed s then some (0, some session_closed, s) else (elim s.connection [
      | none ↦ some (0, some session_closed, s)
      | some c ↦ write_bytes_on net s pkg c
    ])

-- The loop of `WriteBytesArray` over a WebSocket connection.
unfoldable pub write_messages : Net → Session → ℕ → List Bytes → Conn → ℕ × Option Error × Conn
unfolding check_websocket_payload
write_messages net s total [] c = (total, none, c)
write_messages net s total (p ∷ ps) c =
    let sent = Conn.send net (unconnected s.end_point) c (bytes p) in
    let rest = write_messages net s (total + sent.0) ps sent.2 in
    elim (check_websocket_payload s (length p)) [
      | some e ↦ (total, some e, c)
      | none ↦ elim sent.1 [ some e ↦ (total + sent.0, some e, sent.2) | none ↦ rest ]
    ]

-- `IncWritePkgNum` of the session, `n` times.
unfoldable pub inc_write_pkg_nums : ℕ → Session → Session
unfolding inc_write_pkg_num
inc_write_pkg_nums zero s = s
inc_write_pkg_nums (suc n) s = elim s.connection [
  | none ↦ s
  | some c ↦
      inc_write_pkg_nums n
        (record s { connection = some (with_stats c (inc_write_pkg_num (stats_of c))) })
]

-- The part of `WriteBytesArray` that merges the packages.
unfoldable pub write_merged : Net → Session → List Bytes → Option Written
unfolding inc_write_pkg_nums
write_merged net s ps =
    Option.map
      (λ (r : Written). elim r.1 [
        | some e ↦ r
        | none ↦ (r.0, none, inc_write_pkg_nums (length ps - 1) r.2)
      ])
      (write_bytes net s (concat ps))

unfoldable pub write_array_on : Net → Session → List Bytes → Conn → Option Written
unfolding write_merged
write_array_on net s ps (tcp c) =
    some (written s (Conn.send net (unconnected s.end_point) (tcp c) (batch ps)))
write_array_on net s ps (ws c) = some (written s (write_messages net s 0 ps (ws c)))
write_array_on net s ps (udp c) = write_merged net s ps

unfoldable pub write_bytes_array : Net → Session → List Bytes → Option Written
unfolding write_array_on
write_bytes_array net s (p ∷ []) =
    if is_closed s then some (0, some session_closed, s) else write_bytes net s p
write_bytes_array net s ps =
    if is_closed s then some (0, some session_closed, s) else (elim s.connection [
      | none ↦ some (0, some session_closed, s)
      | some c ↦ write_array_on net s ps c
    ])
