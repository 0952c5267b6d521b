-- ===== src/Tests/Datagrams.antt =====
-- Runs of the datagram loop, with the requests of echo clients, and of the WebSocket loop.
use getty.Common.{
  inl, inr, List, ◌∷◌, ◌==◌, if◌then◌else◌, map, arith, ℕ, ◌≡◌, refl, Bool, false, none, some, [],
}
use getty.Connection.Net.{Net}
use getty.Connection.Udp.{read_datagram, new_udp_conn}
use getty.Connection.Udp
use getty.Session.Limits.{udp_read_buffer_size}
use getty.Session.Receive.Udp.{Datagram, handle_udp_package, absorb_datagram, init_udp_receiver}
use getty.Echo.{Package, marshal, put_word, read}
use getty.Echo.Server.{ping}
use getty.Echo.Client.{request}
use getty.Echo.Client.Requests.{request-IsPackage, request-IsCommand}
use getty.Echo.Datagrams.Replies.{datagram, context, expected, replies, replies-reach}
use getty.Session.Receive.Datagrams
use getty.Session.Receive.Datagrams.{tasks_of, handle_udp_package-Served}
use getty.Session.Receive.Ws.{handle_ws_package, init_ws_receiver}
use getty.Session.Receive.Messages
use getty.Session.Receive.Messages.{over_limit, handle_ws_package-Served}
use getty.Tests.Fixtures.{quiet, read_frame, udp_conn, ws_conn}

abbrev never : ℕ → Bool
never k = false

handle_udp_package-Served_example :
    let r = (handle_udp_package read_frame 16 quiet never 5 (init_udp_receiver udp_conn)).0 in
    Datagrams.Served read_frame 16 r.received r.tasks
handle_udp_package-Served_example = handle_udp_package-Served read_frame 16 quiet never 5 udp_conn

handle_ws_package-Served_example :
    let r =
      (handle_ws_package (some read_frame) quiet never (λ k. 16) 5 (init_ws_receiver ws_conn)).0 in
    Messages.Served (some read_frame) r.received r.tasks × (over_limit r.received ≡ 0)
handle_ws_package-Served_example =
    handle_ws_package-Served (some read_frame) quiet never (λ k. 16) 5 ws_conn

-- A heartbeat of peer 9, and a request of peer 8.
abbrev requests : List (Package × ℕ)
requests = (request 0 5 1 ping, 9) ∷ (request 1 6 1 (104 ∷ 105 ∷ []), 8) ∷ []

abbrev request_datagrams : ℕ → Datagram
request_datagrams k =
    if k == 1
    then datagram (request 0 5 1 ping, 9)
    else datagram (request 1 6 1 (104 ∷ 105 ∷ []), 8)

abbrev requested : Net
requested = record quiet {
  read_from_udp = λ k. ((request_datagrams k).0, (request_datagrams k).1, none);
}

requests_arrive :
    (handle_udp_package read 0 requested never 2 (init_udp_receiver udp_conn)).0.received
    ≡ map datagram requests
unfolding handle_udp_package absorb_datagram Udp.recv read_datagram new_udp_conn
    udp_read_buffer_size marshal put_word request
requests_arrive = refl

replies-reach_example :
    let out =
      replies (handle_udp_package read 0 requested never 2 (init_udp_receiver udp_conn)).0.tasks in
    (out ≡ map datagram (map expected requests))
    × (tasks_of read 512 out ≡ map context (map expected requests))
replies-reach_example =
    replies-reach requested never 0 512 2 udp_conn requests
      (
        request-IsPackage 0 5 1 ping (omega arith) (omega arith) (omega arith),
        (request-IsPackage 1 6 1 (104 ∷ 105 ∷ []) (omega arith) (omega arith) (omega arith), tt),
      )
      (
        request-IsCommand 0 5 1 ping (omega arith),
        (request-IsCommand 1 6 1 (104 ∷ 105 ∷ []) (omega arith), tt),
      )
      (inl refl) (inr (omega arith)) requests_arrive
