-- ===== src/Tests/Echo.antt =====
-- Runs of the echo programs.
use getty.Common.{
  ℕ, ◌+◌, ◌-◌, ◌≤◌, ◌<◌, ◌≡◌, refl, inl, Bool, false, Option, none, some, List, [], ◌∷◌, ◌++◌, ◌==◌,
  if◌then◌else◌, length, take, drop, pos, u32, arith,
}
use getty.Errors.{IoError, Error, session_closed}
use getty.Connection.Net.{Bytes, Net}
use getty.Connection.Tcp
use getty.Connection.Tcp.{TcpConn, new_tcp_conn}
use getty.Session.Receive.{Receiver, init_receiver, Exit, handle_tcp_package}
use getty.Echo.{Package, echo_pkg_magic, marshal, read}
use getty.Echo.RoundTrip.{IsPackage}
use getty.Echo.Batches.{stream, Partial}
use getty.Echo.Streams.{reads}
use getty.Echo.Server.{Handler, open_check, open_insert}
use getty.Echo.Server.Bound.{check, insert, Reach, new, step, session_map-le}
use getty.Echo.Server.Answers.{replies, server-echoes}
use getty.Echo.Client.{init_client, select_session, send_request}
use getty.Echo.Client.Requests.{send_request-returns}
use getty.Echo.Client.Sessions.{opened, gone, answered, run, bag, select_session-bag}
use getty.Tests.Fixtures.{quiet, tcp_conn}

-- A request with the string "hi".
abbrev hi : Package
hi = record {
  head = record {
    magic = echo_pkg_magic;
    log_id = 70000;
    sequence = 1;
    service_id = 0;
    command = 1;
    code = pos 0;
    len = 3;
  };
  body = 104 ∷ 105 ∷ [];
}

hi-IsPackage : IsPackage hi
hi-IsPackage = record {
  header = record {
    magic = omega arith;
    log_id = omega arith;
    sequence = omega arith;
    service_id = omega arith;
    command = omega arith;
    code = omega arith;
    len = omega arith;
  };
  magic = refl;
  short = omega arith;
  len = omega arith;
}

-- A connection that brings the request in two parts, and then four bytes of another one.
abbrev in_parts : ℕ → Bytes × Option IoError
in_parts k =
    if k == 1
    then (take 20 (marshal hi), none)
    else if k == 3
    then (drop 20 (marshal hi) ++ take 4 (marshal hi), none)
    else ([], none)

abbrev parts : Net
parts = record quiet { read = λ k size. in_parts k }

abbrev never : ℕ → Bool
never k = false

two_reads : reads parts never 2 tcp_conn ++ drop 4 (marshal hi) ≡ stream (hi ∷ hi ∷ [])
unfolding reads marshal Tcp.recv new_tcp_conn
two_reads = refl

server-echoes_example :
    (r : Receiver Package) × (x : Exit) × (left : List Package) × (handle_tcp_package read parts
        never 0 2
        (init_receiver tcp_conn)
      ≡ some (r, x))
    × (hi ∷ hi ∷ [] ≡ r.tasks ++ left)
    × (r.received ≡ replies r.tasks ++ r.buffer)
    × Partial left r.buffer
server-echoes_example =
    server-echoes parts never 0 2 (hi ∷ hi ∷ []) tcp_conn (drop 4 (marshal hi))
      (hi-IsPackage, (hi-IsPackage, tt)) (omega arith, (omega arith, tt)) (inl refl) two_reads

abbrev failing : Package → Option Error
failing p = some session_closed

send_request-returns_example :
    let p = (send_request failing 0 99 (112 ∷ []) 5 init_client).0 in
    (read (marshal p ++ 7 ∷ []) ≡ (some p, length (marshal p), none))
    × (read (replies (p ∷ []) ++ 7 ∷ []) ≡ (some p, length (marshal p), none))
    × (p.body ≡ 112 ∷ [])
    × (p.head.sequence ≡ u32 (init_client.req_id + 1))
send_request-returns_example =
    send_request-returns failing 0 99 5 (112 ∷ []) (7 ∷ []) init_client (omega arith) (omega arith)

-- Two loops let two sessions through the check of a server for one.
abbrev empty : Handler
empty = record { session_map = []; opening = [] }

abbrev one_checked : Handler
one_checked = (open_check 1 4 empty).1

abbrev both_checked : Handler
both_checked = (open_check 1 5 one_checked).1

abbrev one_in : Handler
one_in = open_insert 4 both_checked

abbrev both_in : Handler
both_in = open_insert 5 one_in

both_in-Reach : Reach 1 2 both_in
unfolding open_check open_insert
both_in-Reach =
    step (step (step (step new (check 4 (omega arith))) (check 5 (omega arith))) (insert 4 refl))
      (insert 5 refl)

above_the_number : length both_in.session_map ≡ 2
unfolding open_check open_insert
above_the_number = refl

session_map-le_example : length both_in.session_map ≤ 1 + 2 - 1
session_map-le_example = session_map-le 1 2 both_in both_in-Reach

abbrev last_one : ℕ → ℕ
last_one n = n - 1

select_last :
    select_session last_one (run init_client (opened 4 ∷ opened 6 ∷ gone 4 ∷ answered 6 ∷ []))
    ≡ some 6
unfolding select_session run
select_last = refl

select_session-bag_example : 0 < bag (λ t. 0) (opened 4 ∷ opened 6 ∷ gone 4 ∷ answered 6 ∷ []) 6
select_session-bag_example =
    select_session-bag (opened 4 ∷ opened 6 ∷ gone 4 ∷ answered 6 ∷ []) last_one (some 6)
      (λ n h. omega (arith, h)) select_last
