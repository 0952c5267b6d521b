-- ===== src/Session/State.antt =====
-- The fields of `session` and `sessionLifecycle`, and the constructors.
use Prim.Native.String.{String}
use getty.Common.{ℕ, ◌+◌, ◌-◌, Bool, true, false, Option, none, some, if◌then◌else◌, ◌==◌}
use getty.Constants.{EndPointType, udp_endpoint}
use getty.Callbacks.{Callbacks}
use getty.Callbacks
use getty.Connection.Conn.{Conn, tcp, udp, ws}

-- What a session sees of its end point.
pub record EndPoint : Type 0 where
  pub id : ℕ
  pub kind : EndPointType
  pub task_pool : Bool

-- `sessionLifecycle`: `wg` is the counter of its `WaitGroup`.
pub record Lifecycle : Type 0 where
  pub closed : Bool
  pub wg : ℕ

abbrev pub new_session_lifecycle : Lifecycle
new_session_lifecycle = record { closed = false; wg = 0 }

unfoldable pub acquire : Lifecycle → Lifecycle × Bool
acquire l = if l.closed then (l, false) else (record l { wg = l.wg + 1 }, true)

-- `none` is the panic of `WaitGroup.Done` below 0.
unfoldable pub release : Lifecycle → Option Lifecycle
release l = if l.wg == 0 then none else some (record l { wg = l.wg - 1 })

unfoldable pub add_closing_task : Lifecycle → Lifecycle
add_closing_task l = record l { wg = l.wg + 1 }

unfoldable pub close_lifecycle : Lifecycle → Lifecycle
close_lifecycle l = record l { closed = true }

-- A value of an attribute: the owner of a session, a flag, or a value of the application.
pub data AttrValue : Type 0 where
  owner : ℕ → AttrValue
  flag : Bool → AttrValue
  value : ℕ → AttrValue

-- The keys of `client.go`.
abbrev pub session_client_key : String
session_client_key = "session-client-owner"

abbrev pub ignore_reconnect_key : String
ignore_reconnect_key = "ignore-reconnect"

-- A `ValuesContext` is what its `Get` answers.
abbrev pub Attrs : Type 0
Attrs = String → Option AttrValue

-- `lifecycle` points to a `Lifecycle` on a heap of them (Session/Lifecycle.antt). Listener, reader and
-- writer are code of the application: a number stands for each. `once` says that
-- the body of `stop` has run, `done` that the channel is closed. `attrs` is `none` after `gc`.
pub record Session : Type 0 where
  pub name : String
  pub end_point : Option EndPoint
  pub connection : Option Conn
  pub listener : Option ℕ
  pub reader : Option ℕ
  pub writer : Option ℕ
  pub max_msg_len : ℕ
  pub max_write_msg_len : ℕ
  pub period : ℕ
  pub heartbeat_timer : Option ℕ
  pub lifecycle : ℕ
  pub wait : ℕ
  pub once : Bool
  pub done : Bool
  pub attrs : Option Attrs
  pub gr_num : ℕ
  pub close_callback : Callbacks
  pub callback_depth : ℕ

-- In nanoseconds.
abbrev pub default_period : ℕ
default_period = 60000000000

abbrev pub pending_duration : ℕ
pending_duration = 3000000000

abbrev pub max_read_buf_len : ℕ
max_read_buf_len = 4096

abbrev pub max_packet_len : ℕ
max_packet_len = 16384

-- `newSession`; the connections are born with the timeouts that it sets.
unfoldable pub new_session : EndPoint → Conn → Session
unfolding Callbacks.empty
new_session e c = record {
  name = "session";
  end_point = some e;
  connection = some c;
  listener = none;
  reader = none;
  writer = none;
  max_msg_len = max_read_buf_len;
  max_write_msg_len = 0;
  period = default_period;
  heartbeat_timer = none;
  lifecycle = 0;
  wait = pending_duration;
  once = false;
  done = false;
  attrs = some (λ _. none);
  gr_num = 0;
  close_callback = Callbacks.empty;
  callback_depth = 0;
}

-- The names that `newTCPSession`, `newUDPSession` and `newWSSession` give.
abbrev default_name : Conn → String
default_name (tcp c) = "tcp-session"
default_name (udp c) = "udp-session"
default_name (ws c) = "ws-session"

unfoldable pub new_conn_session : EndPoint → Conn → Session
unfolding new_session
new_conn_session e c = record (new_session e c) { name = default_name c }

-- `IsClosed`, and `closedLocked`.
abbrev pub is_closed : Session → Bool
is_closed s = s.done

-- Whether the end point is an unconnected udp socket, as `gettyUDPConn.Send` asks. No session with a connection is
-- without an end point, on which that would panic.
abbrev pub unconnected : Option EndPoint → Bool
unconnected none = false
unconnected (some e) = e.kind == udp_endpoint
