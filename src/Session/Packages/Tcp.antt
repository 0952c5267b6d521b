-- ===== src/Session/Packages/Tcp.antt =====
-- What `WritePkg` sends on tcp.
use getty.Common.{
  ℕ, zero, suc, ◌≡◌, ◌<◌, refl, sym, subst, ◌∙◌, ap, false, Option, none, some, length, ℤ, pos,
  negsuc, arith,
}
use getty.Errors.{Error}
use getty.Connection.Net.{Bytes, bytes, Net, IsWriter}
use getty.Connection.Tcp.{TcpConn, transmit, conclude, codec_io_error}
use getty.Connection.Tcp
use getty.Connection.Tcp.Delivery.{Delivers, send-Delivers}
use getty.Connection.Conn.{Conn, tcp, udp, ws, stats_of, with_stats}
use getty.Connection.Conn
use getty.Session.State.{Session, Lifecycle, acquire, release}
use getty.Session.Packages.{
  Package, plain, Encoded, encoded, payload, Result, send_checked, restore, send_timed, write_held,
  write_open, write_pkg,
}
use getty.Session.Packages.Timeouts.{
  IsTimed, set_write_timeout_lem, send_checked-SameTimes, send_timed_lem,
}

-- A send on tcp, with or without a limit of its own.
abbrev Sent : TcpConn → Bytes → Result × Conn → Type 0
Sent c p r =
    (n : ℕ) × (e : Option Error) × (c' : TcpConn) × (r ≡ ((length p, n, e), tcp c'))
    × Delivers c p n e c'

checked-Sent :
    (net : Net)
    → IsWriter net
    → (s : Session) (c : TcpConn) (p : Bytes) → Sent c p (send_checked net s (tcp c) (bytes p) p)
unfolding send_checked Conn.send
checked-Sent net w s c p =
    let r = Tcp.send net c (bytes p) in (r.0, r.1, r.2, refl, send-Delivers net w c (bytes p))

restore-tcp :
    (saved : ℕ) (r : Result) (c : TcpConn)
    → 0 < saved
    → 0 < c.r_timeout
    → restore saved (r, tcp c)
      ≡ (r, tcp (record c { stats = record (c.stats) { w_timeout = saved } }))
unfolding restore
restore-tcp saved r c h k = rw (set_write_timeout_lem saved c.stats h k, restore) refl

restore-Sent :
    (c : TcpConn) (t saved : ℕ) (p : Bytes) (r : Result × Conn)
    → 0 < saved
    → 0 < (stats_of r.1).r_timeout
    → Sent (record c { stats = record (c.stats) { w_timeout = t } }) p r
    → Sent c p (restore saved r)
restore-Sent c t saved p r h k (n, e, c', eq, d) = (
  n,
  e,
  record c' { stats = record (c'.stats) { w_timeout = saved } },
  ap (restore saved) eq
      ∙ restore-tcp saved (length p, n, e) c' h (subst (λ x. 0 < (stats_of x.1).r_timeout) eq k),
  record {
    appended = d.appended;
    within = d.within;
    complete = d.complete;
    same_codec = d.same_codec;
  },
)

timed-Sent :
    (net : Net)
    → IsWriter net
    → (s : Session) (c : TcpConn) (p : Bytes) (t : ℤ) → IsTimed c.stats
    → Sent c p (send_timed net s (tcp c) (bytes p) p t)
unfolding send_timed
timed-Sent net w s c p (pos zero) h = checked-Sent net w s c p
timed-Sent net w s c p (negsuc n) h = checked-Sent net w s c p
timed-Sent net w s c p (pos (suc t)) (hr, hw) =
    let c' = record c { stats = record (c.stats) { w_timeout = suc t } } in
    let (same_r, _) = send_checked-SameTimes net s (tcp c') (bytes p) p in
    subst (Sent c p) (sym (send_timed_lem net s (tcp c) (bytes p) p t (hr, hw))) (
      restore-Sent c (suc t) c.w_timeout p (send_checked net s (tcp c') (bytes p) p) hw
        (ground (arith, same_r, hr)) (checked-Sent net w s c' p))

module _ {P : Type 0} (write : Package P → Encoded) where
  -- On an open tcp session `WritePkg` appends to the confirmed bytes exactly the prefix of the encoded package
  -- that its second count names, all of it where it returns no error, with or without a limit of its own.
  pub write_pkg-tcp :
      (net : Net)
      → IsWriter net
      → (s : Session) (l : Lifecycle) (x : P) (t : ℤ) (p : Bytes) (c : TcpConn) → s.done ≡ false
      → l.closed ≡ false
      → write (plain x) ≡ encoded p none
      → s.connection ≡ some (tcp c)
      → IsTimed c.stats
      → (n : ℕ) × (e : Option Error) × (c' : TcpConn) × (write_pkg write net s l (plain x) t
          ≡ some ((length p, n, e), record s { connection = some (tcp c') }, l))
        × Delivers c p n e c'
  unfolding write_pkg write_open write_held payload acquire release
  write_pkg-tcp net w s l x t p c on free wrote conn timed =
      let (n, e, c', eq, d) = timed-Sent net w s c p t timed in
      (n, e, c', ground (arith, on, free, wrote, conn, eq), d)
