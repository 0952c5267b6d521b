-- ===== src/Session/Packages/Udp.antt =====
-- What `WritePkg` sends on udp.
use getty.Common.{
  ◌+◌, ltb, ℕ, zero, suc, ◌≡◌, ◌<◌, ◌⊎◌, inl, inr, refl, sym, subst, ◌∙◌, ap, Bool, true, false,
  Option, none, some, [], ◌∷◌, ◌++◌, if◌then◌else◌, is_some, length, ℤ, pos, negsuc, arith,
  Option-cases, Bool-cases,
}
use getty.Errors.{Error}
use getty.Connection.Net.{Bytes, udp_context, Net}
use getty.Connection.Udp.{UdpConn, arm_datagram, write_datagram}
use getty.Connection.Udp
use getty.Connection.Stats.{Stats}
use getty.Connection.Conn.{Conn, tcp, udp, ws, stats_of, with_stats}
use getty.Connection.Conn
use getty.Session.State.{Session, Lifecycle, acquire, release, unconnected}
use getty.Session.Packages.{
  Package, context, Encoded, encoded, payload, Result, send_checked, restore, send_timed,
  write_held, write_open, write_pkg,
}
use getty.Session.Packages.Timeouts.{
  IsTimed, set_write_timeout_lem, send_checked-SameTimes, send_timed_lem,
}

-- Nothing went out, with an error, or one datagram did, with none.
abbrev pub Went : Bytes → Option ℕ → Option Error → UdpConn → UdpConn → Type 0
Went p dest e c c' =
    ((is_some e ≡ true) × (c'.datagrams ≡ c.datagrams))
    ⊎ ((e ≡ none) × (c'.datagrams ≡ c.datagrams ++ (p, dest) ∷ []))

write_datagram-Went :
    (net : Net) (c : UdpConn) (p : Bytes) (dest : Option ℕ)
    → let r = write_datagram net c p dest in Went p dest r.1 c r.2
unfolding write_datagram
write_datagram-Went net c p dest = elim (Option-cases (net.write_msg_udp c.calls p dest).1) [
  | inl e ↦ inr (ground (arith, e), ground (arith, e))
  | inr (x, e) ↦ inl (ground (arith, e), ground (arith, e))
]

arm_datagram-Went :
    (net : Net) (c : UdpConn) (p : Bytes) (dest : Option ℕ)
    → let r = arm_datagram net c p dest in Went p dest r.1 c r.2
unfolding arm_datagram
arm_datagram-Went net c p dest =
    let armed = record c { calls = c.calls + 1 } in
    let w = write_datagram-Went net armed p dest in
    let sent : arm_datagram net c p dest ≡ write_datagram net armed p dest
        → Went p dest (arm_datagram net c p dest).1 c (arm_datagram net c p dest).2 =
      λ h. subst (λ r. Went p dest r.1 c r.2) (sym h) w in
    elim (Bool-cases (ltb 0 c.w_timeout)) [
      | inr h ↦ sent (ground (arith, h))
      | inl h ↦ elim (Option-cases (net.set_write_deadline c.calls)) [
        | inl e ↦ sent (ground (arith, h, e))
        | inr (x, e) ↦ inl (ground (arith, h, e), ground (arith, h, e))
      ]
    ]

-- A context without an address is refused where the socket has no peer of its own.
send-Went :
    (net : Net) (u : Bool) (c : UdpConn) (p : Bytes) (peer : Option ℕ)
    → let r = Udp.send net u c (udp_context (some p) peer) in
      Went p (if u then peer else none) r.1 c r.2
unfolding Udp.send
send-Went net true c p none = inl (refl, refl)
send-Went net true c p (some a) = arm_datagram-Went net c p (some a)
send-Went net false c p peer = arm_datagram-Went net c p none

abbrev Sent : UdpConn → Bytes → Option ℕ → Result × Conn → Type 0
Sent c p dest r =
    (n : ℕ) × (e : Option Error) × (c' : UdpConn) × (r ≡ ((length p, n, e), udp c'))
    × Went p dest e c c'

checked-Sent :
    (net : Net) (s : Session) (c : UdpConn) (p : Bytes) (peer : Option ℕ)
    → Sent c p
        (if unconnected s.end_point then peer else none)
        (send_checked net s (udp c) (udp_context (some p) peer) p)
unfolding send_checked Conn.send
checked-Sent net s c p peer =
    let r = Udp.send net (unconnected s.end_point) c (udp_context (some p) peer) in
    (r.0, r.1, r.2, refl, send-Went net (unconnected s.end_point) c p peer)

restore-Sent :
    (c : UdpConn) (st : Stats) (saved : ℕ) (p : Bytes) (dest : Option ℕ) (r : Result × Conn)
    → 0 < saved
    → 0 < (stats_of r.1).r_timeout
    → Sent (record c { stats = st }) p dest r
    → Sent c p dest (restore saved r)
unfolding restore
restore-Sent c st saved p dest r h k (n, e, c', eq, d) =
    let kept = subst (λ x. 0 < (stats_of x.1).r_timeout) eq k in
    (
      n,
      e,
      record c' { stats = record (c'.stats) { w_timeout = saved } },
      ap (restore saved) eq ∙ rw (set_write_timeout_lem saved c'.stats h kept, restore) refl,
      d,
    )

timed-Sent :
    (net : Net) (s : Session) (c : UdpConn) (p : Bytes) (peer : Option ℕ) (t : ℤ)
    → IsTimed c.stats
    → Sent c p
        (if unconnected s.end_point then peer else none)
        (send_timed net s (udp c) (udp_context (some p) peer) p t)
unfolding send_timed
timed-Sent net s c p peer (pos zero) h = checked-Sent net s c p peer
timed-Sent net s c p peer (negsuc n) h = checked-Sent net s c p peer
timed-Sent net s c p peer (pos (suc t)) (hr, hw) =
    let dest = if unconnected s.end_point then peer else none in
    let st = record (c.stats) { w_timeout = suc t } in
    let c' = record c { stats = st } in
    let pkg = udp_context (some p) peer in
    let (same_r, _) = send_checked-SameTimes net s (udp c') pkg p in
    subst (Sent c p dest) (sym (send_timed_lem net s (udp c) pkg p t (hr, hw))) (
      restore-Sent c st c.w_timeout p dest (send_checked net s (udp c') pkg p) hw
        (ground (arith, same_r, hr)) (checked-Sent net s c' p peer))

module _ {P : Type 0} (write : Package P → Encoded) where
  -- On an open udp session `WritePkg` of a `UDPContext` sends the encoded package as one datagram and returns no
  -- error, or sends nothing and returns one, with or without a limit of its own. The datagram names the
  -- peer of the context on an unconnected socket, and none on a connected one.
  pub write_pkg-udp :
      (net : Net) (s : Session) (l : Lifecycle) (x : P) (peer : Option ℕ) (t : ℤ) (p : Bytes)
      (c : UdpConn)
      → s.done ≡ false
      → l.closed ≡ false
      → write (context x peer) ≡ encoded p none
      → s.connection ≡ some (udp c)
      → IsTimed c.stats
      → (n : ℕ) × (e : Option Error) × (c' : UdpConn) × (write_pkg write net s l (context x peer) t
          ≡ some ((length p, n, e), record s { connection = some (udp c') }, l))
        × Went p (if unconnected s.end_point then peer else none) e c c'
  unfolding write_pkg write_open write_held payload acquire release
  write_pkg-udp net s l x peer t p c on free wrote conn timed =
      let (n, e, c', eq, d) = timed-Sent net s c p peer t timed in
      (n, e, c', ground (arith, on, free, wrote, conn, eq), d)
