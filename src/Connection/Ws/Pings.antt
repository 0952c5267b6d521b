-- ===== src/Connection/Ws/Pings.antt =====
-- `handlePing`: what a peer's ping comes to when its pong cannot be written.
use mathlib.Core.Option
use getty.Common.{ℕ, ◌≡◌, false, Option-cases, is_some, inl, inr, if◌then◌else◌, arith}
use getty.Errors.{IoError}
use getty.Connection.Net.{Bytes, Net}
use getty.Connection.Ws.{WsConn, write_message, Annotation, write_control, handle_ping}

-- What `WithStack` of the package errors documents: it returns an error of its own type, with the stack
-- and the cause. That value is not `ErrCloseSent`, and the type has no method `Timeout`.
pub record IsAnnotation (a : Annotation) : Type 0 where
  pub not_close_sent : (e : IoError) → a.is_close_sent (a.with_stack e) ≡ false
  pub not_net_timeout : (e : IoError) → a.is_net_timeout (a.with_stack e) ≡ false

-- A ping is answered with an error exactly when its pong could not be written, whatever the reason: a close
-- frame that was sent and a timeout count as failures too, and then the activity is not refreshed.
pub handle_ping_lem :
    (a : Annotation) (net : Net) (now : ℕ) (c : WsConn) (message : Bytes)
    → IsAnnotation a
    → let r = handle_ping a net now c message in
      (r.0 ≡ Option.map a.with_stack (net.write_message c.calls message))
      × (r.1.active ≡ (if is_some (net.write_message c.calls message) then c.active else now))
unfolding handle_ping write_control write_message
handle_ping_lem a net now c message h = elim (Option-cases (net.write_message c.calls message)) [
  | inl n ↦ ground (arith, n)
  | inr (e, n) ↦ ground (arith, n, h.not_close_sent e, h.not_net_timeout e)
]
