-- ===== src/Echo/Server.antt =====
-- examples/echo/tcp-echo/server: the handlers of handler.go. A session is a reference, a number.
pub mod Bound
pub mod Answers
use getty.Common.{
  ℕ, suc, ◌+◌, ◌-◌, Bool, true, false, not, ◌&&◌, Option, none, some, List, [], ◌∷◌, ◌++◌, ltb, leb,
  ◌==◌, if◌then◌else◌, length, u32, u16, is_some,
}
use getty.Errors.{Error}
use getty.Connection.Net.{Bytes}
use getty.Echo.{Header, Package}

abbrev pub heartbeat_cmd : ℕ
heartbeat_cmd = 0

abbrev pub echo_cmd : ℕ
echo_cmd = 1

-- `echoHeartbeatResponseString` and `echoHeartbeatRequestString`.
abbrev pub pong : Bytes
pong = 112 ∷ 111 ∷ 110 ∷ 103 ∷ []

abbrev pub ping : Bytes
ping = 112 ∷ 105 ∷ 110 ∷ 103 ∷ []

-- `sessionMap` with the `reqNum` of each session, and the sessions whose `OnOpen` is between its two
-- critical sections: it has checked the number, and has not inserted.
pub record Handler : Type 0 where
  pub session_map : List (ℕ × ℕ)
  pub opening : List ℕ

unfoldable pub delete : ℕ → List (ℕ × ℕ) → List (ℕ × ℕ)
delete s [] = []
delete s ((t, n) ∷ m) = let rest = delete s m in if s == t then rest else (t, n) ∷ rest

-- An assignment to a key: in place, or a new entry.
unfoldable pub assign : ℕ → ℕ → List (ℕ × ℕ) → List (ℕ × ℕ)
assign s v [] = (s, v) ∷ []
assign s v ((t, n) ∷ m) = let rest = assign s v m in if s == t then (s, v) ∷ m else (t, n) ∷ rest

unfoldable pub lookup : ℕ → List (ℕ × ℕ) → Option ℕ
lookup s [] = none
lookup s ((t, n) ∷ m) = if s == t then some n else lookup s m

unfoldable pub remove_opening : ℕ → List ℕ → List ℕ
remove_opening s [] = []
remove_opening s (t ∷ ts) = let rest = remove_opening s ts in if s == t then ts else t ∷ rest

-- `OnOpen` up to its first unlock, with `conf.SessionNumber`; the result says whether it goes on.
unfoldable pub open_check : ℕ → ℕ → Handler → Bool × Handler
open_check number s h =
    if leb number (length h.session_map)
    then (false, h)
    else (true, record h { opening = s ∷ h.opening })

-- The second critical section of `OnOpen`.
unfoldable pub open_insert : ℕ → Handler → Handler
unfolding assign remove_opening
open_insert s h = record h {
  session_map = assign s 0 h.session_map;
  opening = remove_opening s h.opening;
}

-- `OnError` and `OnClose`, and the end of `OnCron` for a session that has timed out.
unfoldable pub on_close : ℕ → Handler → Handler
unfolding delete
on_close s h = record h { session_map = delete s h.session_map }

-- `OnCron` up to its first unlock: whether the session is to be dropped and closed. Times in nanoseconds.
unfoldable pub cron_check : ℕ → ℕ → ℕ → ℕ → Handler → Bool
unfolding lookup
cron_check session_timeout active now s h =
    is_some (lookup s h.session_map) && ltb session_timeout (now - active)

-- What `Handle` of the heartbeat handler makes and what it writes: the answer is made, and the request is
-- written.
unfoldable pub heartbeat_response : Package → Package
heartbeat_response p = record {
  head = record (p.head) { len = u16 (length pong + 1) };
  body = pong;
}

unfoldable pub handle_heartbeat : Package → Package
handle_heartbeat p = p

-- What `Handle` of the message handler writes.
unfoldable pub handle_message : Package → Package
handle_message p = p

-- The handler of a command, and what it writes; `none` is an illegal command.
unfoldable pub answer : Package → Option Package
unfolding handle_heartbeat handle_message
answer p =
    if p.head.command == heartbeat_cmd
    then some (handle_heartbeat p)
    else if p.head.command == echo_cmd
    then some (handle_message p)
    else none

-- `OnMessage`, for a package of the right type: what it writes, and the state; `write_pkg` is the error of
-- `WritePkg`. A failure is counted.
unfoldable pub on_message :
    (Package → Option Error) → ℕ → Package → Handler → Option Package × Handler
unfolding answer lookup assign
on_message write_pkg s p h = elim (answer p) [
  | none ↦ (none, h)
  | some q ↦ elim (write_pkg q) [
    | none ↦ (some q, h)
    | some e ↦ elim (lookup s h.session_map) [
      | none ↦ (some q, h)
      | some n ↦ (some q, record h { session_map = assign s (u32 (n + 1)) h.session_map })
    ]
  ]
]
