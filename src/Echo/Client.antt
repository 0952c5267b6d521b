-- ===== src/Echo/Client.antt =====
-- examples/echo/tcp-echo/client: `EchoClient` of client.go, the handlers of handler.go, and `echo` of main.go.
pub mod Sessions
pub mod Requests
use getty.Common.{
  ℕ, suc, ◌+◌, ◌-◌, ◌%◌, Bool, true, false, Option, none, some, List, [], ◌∷◌, ◌++◌, ltb, ◌==◌,
  if◌then◌else◌, length, get_elem?, u32, u16, pos, is_some,
}
use getty.Errors.{Error}
use getty.Connection.Net.{Bytes}
use getty.Echo.{Header, Package, echo_pkg_magic}
use getty.Echo.Server.{heartbeat_cmd, echo_cmd, ping}

-- `clientEchoSession`: a session, by reference, and `reqNum`.
pub record Entry : Type 0 where
  pub session : ℕ
  pub req_num : ℕ

-- `EchoClient`, with the counter `reqID`; `running` says that `gettyClient` is not nil, and `closed` lists the
-- sessions that were closed.
pub record EchoClient : Type 0 where
  pub sessions : List Entry
  pub running : Bool
  pub req_id : ℕ
  pub closed : List ℕ

abbrev pub init_client : EchoClient
init_client = record { sessions = []; running = true; req_id = 0; closed = [] }

abbrev pub references : List Entry → List ℕ
references [] = []
references (e ∷ es) = e.session ∷ references es

-- `close`, once.
unfoldable pub close : EchoClient → EchoClient
close c =
    if c.running
    then record c { running = false; sessions = []; closed = c.closed ++ references c.sessions }
    else c

-- `selectSession`; `draw` is what `rand.Int31n` returns for the number of sessions. `none` is nil.
unfoldable pub select_session : (ℕ → ℕ) → EchoClient → Option ℕ
select_session draw c = elim (get_elem? c.sessions (draw (length c.sessions))) [
  | none ↦ none
  | some e ↦ if length c.sessions == 0 then none else some e.session
]

unfoldable pub is_available : (ℕ → ℕ) → EchoClient → Bool
unfolding select_session
is_available draw c = is_some (select_session draw c)

-- `addSession`, which `OnOpen` calls.
unfoldable pub add_session : ℕ → EchoClient → EchoClient
add_session s c = record c { sessions = c.sessions ++ record { session = s; req_num = 0 } ∷ [] }

-- The loop of `removeSession`: the first entry of the session goes.
unfoldable pub remove_entry : ℕ → List Entry → List Entry
remove_entry s [] = []
remove_entry s (e ∷ es) = let rest = remove_entry s es in if e.session == s then es else e ∷ rest

-- `removeSession`, which `OnError` and `OnClose` call.
unfoldable pub remove_session : ℕ → EchoClient → EchoClient
unfolding remove_entry
remove_session s c = record c { sessions = remove_entry s c.sessions }

-- The loop of `updateSession`; `reqNum` is an `int32`, as its bits.
unfoldable pub update_entry : ℕ → List Entry → List Entry
update_entry s [] = []
update_entry s (e ∷ es) =
    let rest = update_entry s es in
    if e.session == s then record e { req_num = u32 (e.req_num + 1) } ∷ es else e ∷ rest

-- `updateSession`, which `OnMessage` calls.
unfoldable pub update_session : ℕ → EchoClient → EchoClient
unfolding update_entry
update_session s c = record c { sessions = update_entry s c.sessions }

-- `getClientEchoSession`; `none` is `errSessionNotExist`.
unfoldable pub find_entry : ℕ → List Entry → Option Entry
find_entry s [] = none
find_entry s (e ∷ es) = if e.session == s then some e else find_entry s es

-- The package that `heartbeat` and `echo` send: `log_id` is the low word of a random number.
unfoldable pub request : ℕ → ℕ → ℕ → Bytes → Package
request command log_id sequence body = record {
  head = record {
    magic = echo_pkg_magic;
    log_id = u32 log_id;
    sequence = sequence;
    service_id = 0;
    command = command;
    code = pos 0;
    len = u16 (length body + 1);
  };
  body = body;
}

-- The request, what is written of it, and its session, which is closed and removed where `WritePkg` fails.
unfoldable pub send_request :
    (Package → Option Error) → ℕ → ℕ → Bytes → ℕ → EchoClient → Package × EchoClient
unfolding request remove_session
send_request write_pkg command log_id body s c =
    let counted = record c { req_id = u32 (c.req_id + 1) } in
    let p = request command log_id counted.req_id body in
    elim (write_pkg p) [
      | none ↦ (p, counted)
      | some e ↦ (p, remove_session s (record counted { closed = counted.closed ++ s ∷ [] }))
    ]

-- `heartbeat`.
unfoldable pub heartbeat : (Package → Option Error) → ℕ → ℕ → EchoClient → Package × EchoClient
unfolding send_request
heartbeat write_pkg log_id s c = send_request write_pkg heartbeat_cmd log_id ping s c

-- `echo` of main.go with the string of the configuration. It numbers a request also where no session is
-- there for it.
unfoldable pub echo :
    (Package → Option Error) → (ℕ → ℕ) → ℕ → Bytes → EchoClient → Option Package × EchoClient
unfolding send_request select_session
echo write_pkg draw log_id string c = elim (select_session draw c) [
  | none ↦ (none, record c { req_id = u32 (c.req_id + 1) })
  | some s ↦ let (p, c') = send_request write_pkg echo_cmd log_id string s c in (some p, c')
]

-- `OnCron`: a session that is not known is left, one that has timed out is removed, and another gets a
-- heartbeat. Times in nanoseconds.
unfoldable pub on_cron :
    (Package → Option Error) → ℕ → ℕ → ℕ → ℕ → ℕ → EchoClient → Option Package × EchoClient
unfolding find_entry heartbeat remove_session
on_cron write_pkg session_timeout active now log_id s c = elim (find_entry s c.sessions) [
  | none ↦ (none, c)
  | some e ↦
      let (p, c') = heartbeat write_pkg log_id s c in
      if ltb session_timeout (now - active) then (none, remove_session s c) else (some p, c')
]
