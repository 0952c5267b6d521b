-- ===== src/Tests/Handling.antt =====
-- A client's session whose peer closes the stream, and a session whose `OnCron` panics.
use getty.Common.{
  ℕ, zero, suc, ◌≡◌, refl, Bool, true, false, none, some, ◌∷◌, [], map, if◌then◌else◌,
}
use getty.Connection.Net.{Bytes, Net}
use getty.Connection.Conn.{Conn, tcp, ws}
use getty.Connection.Tcp
use getty.Connection.Tcp.{new_tcp_conn}
use getty.Session.State.{owner, flag, session_client_key, ignore_reconnect_key}
use getty.Session.Setters.{set_attribute, get_attribute}
use getty.Session.Lifecycle.{System, init_system, listen}
use getty.Session.Events.{on_cron, on_error, on_close}
use getty.Session.Heartbeat.{heartbeat, cron, is_raw_closed, heartbeat-faulty}
use getty.Session.Receive.{
  Receiver, init_receiver, exited, handle_tcp_package, absorb, decode_batch, limit_error,
}
use getty.Session.Handling.{Handled, decoded, handle_tcp, handle_udp, handle_ws, handshake_error}
use getty.Session.Handling.Reconnects.{saw_end, is_end, handle_tcp-reconnects}
use getty.Errors.{io, eof, timeout}
use getty.Session.Handling.Idle.{IsIdle, idle_close}
use getty.Tests.Fixtures.{quiet, read_frame, end_point, tcp_conn, udp_conn, ws_conn}

abbrev never : ℕ → Bool
never k = false

abbrev made : System
made = init_system (end_point 2) (tcp tcp_conn)

-- The session of client 8.
abbrev owned : System
owned = record made {
  session =
      set_attribute ignore_reconnect_key (flag false)
        (set_attribute session_client_key (owner 8) made.session);
}

abbrev last : Receiver Bytes
last = record {
  conn =
      (Tcp.recv quiet false (Tcp.recv quiet false (Tcp.recv quiet false tcp_conn 4096).2 4096).2
        4096).2;
  buffer = [];
  tasks = (7 ∷ 8 ∷ []) ∷ (9 ∷ []) ∷ [];
  ignore_reconnect = true;
  received = 2 ∷ 7 ∷ 8 ∷ 1 ∷ 9 ∷ [];
  answers = some (io eof) ∷ none ∷ none ∷ [];
}

reading_ends :
    handle_tcp_package read_frame quiet never 16 3 (init_receiver tcp_conn)
    ≡ some (last, exited none)
unfolding handle_tcp_package absorb decode_batch limit_error read_frame Tcp.recv new_tcp_conn
reading_ends = refl

handle_tcp-reconnects_example :
    (h : Handled Bytes) × (handle_tcp (some read_frame) none quiet never 16 3 tcp_conn owned
      ≡ some h)
    × (h.system.reconnects
        ≡ (if saw_end last.answers then owned.reconnects else 8 ∷ owned.reconnects))
    × (h.tasks ≡ map decoded last.tasks)
    × (h.system.session.connection ≡ none)
unfolding init_system set_attribute get_attribute handshake_error saw_end is_end
handle_tcp-reconnects_example =
    handle_tcp-reconnects read_frame none quiet never 16 3 tcp_conn owned 8 last none refl refl refl
      refl reading_ends

-- A WebSocket session with a listener.
abbrev listening : System
listening = listen 1 (init_system (end_point 2) (ws ws_conn))

heartbeat-faulty_example :
    (v : System) × (heartbeat {P = Bytes} quiet true listening.session.lifecycle listening
      ≡ (none, v, on_cron ∷ []))
    × (v.session.done ≡ true)
    × ((d : Conn) × (v.session.connection ≡ some d) × (is_raw_closed d ≡ true))
    × ((others : System → System) (again : Bool)
        → cron {P = Bytes} quiet others again listening.session.lifecycle v ≡ (v, []))
unfolding listen init_system
heartbeat-faulty_example = heartbeat-faulty quiet listening (ws ws_conn) refl refl refl refl refl

-- A network that says nothing, and a session that is closed in the second read.
abbrev silent : Net
silent = record quiet {
  read = λ j size. ([], some timeout);
  read_from_udp = λ j. ([], none, some timeout);
  next_reader = λ j. some timeout;
}

silent-IsIdle : IsIdle silent
silent-IsIdle = record {
  stream = λ j size. refl;
  datagrams = λ j. refl;
  messages = λ j. refl;
  deadlines = λ j. refl;
}

abbrev in_second : ℕ → Bool
in_second zero = true
in_second (suc j) = false

idle_close_example :
    ((h : Handled Bytes) × (handle_tcp
          (some read_frame)
          none
          silent
          in_second
          16
          (suc (suc 1))
          tcp_conn
          listening
        ≡ some h)
      × (h.events ≡ on_close ∷ []))
    × ((h : Handled Bytes) × (handle_ws
            (some read_frame)
            silent
            in_second
            16
            (suc (suc 1))
            ws_conn
            listening
          ≡ some h)
        × (h.events ≡ on_close ∷ []))
    × ((h : Handled Bytes) × (handle_udp
            (some read_frame)
            silent
            in_second
            16
            (suc (suc 1))
            udp_conn
            listening
          ≡ some h)
        × (h.events ≡ on_error (io timeout) ∷ on_close ∷ []))
unfolding listen new_tcp_conn
idle_close_example =
    idle_close read_frame 16 1 silent in_second listening tcp_conn udp_conn ws_conn silent-IsIdle
      (record { last = refl; before = λ j. refl }) (refl, refl) refl
