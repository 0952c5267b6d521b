-- ===== src/Client/Dial.antt =====
-- `dial` of client.go: one attempt to connect, for each kind of client.
pub mod Sockets
use Prim.Native.String.{String}
use getty.Common.{
  ℕ, suc, ◌+◌, ◌≤◌, ◌≡◌, Bool, true, false, not, ◌&&◌, Option, none, some, ◌==◌, if◌then◌else◌,
  is_some,
}
use getty.Errors.{IoError, is_timeout}
use getty.Constants.{EndPointType, udp_client, tcp_client, ws_client, wss_client}
use getty.Options.{ClientOptions}
use getty.Tls.{Store, Config, TlsError, Built, build_wss_client}

-- What an attempt meets outside: the error of `net.DialTimeout`, of `tls.DialWithDialer`, of `ResolveUDPAddr`
-- and `DialUDP`, of the ping and its answer, and of the dialer of WebSockets; whether the two ends have the
-- same address; and what the builder of the options answers.
pub record Outside : Type 0 where
  pub tcp : Option IoError
  pub tls : Config → Option IoError
  pub resolve : Option IoError
  pub udp : Option IoError
  pub ping : Option IoError
  pub pong : Option IoError
  pub ws : Option Config → Option IoError
  pub same_addr : Bool
  pub build : Built

pub data Kind : Type 0 where
  tcp_session : Kind
  udp_session : Kind
  ws_session : Kind

-- What an attempt comes to: a session or nil, the configuration that its TLS handshake had, and the numbers of
-- sockets that were opened and closed.
pub record Dialed : Type 0 where
  pub session : Option Kind
  pub secured : Option Config
  pub opened : ℕ
  pub closed : ℕ

abbrev pub refused : Dialed
refused = record { session = none; secured = none; opened = 0; closed = 0 }

abbrev pub dropped : Option Config → Dialed
dropped cfg = record { session = none; secured = cfg; opened = 1; closed = 1 }

-- What follows a dial that returned the error: a connection to itself is closed.
unfoldable pub settle : Kind → Option Config → Option IoError → Bool → Dialed
settle k cfg (some e) same = refused
settle k cfg none same =
    if same then dropped cfg else record { session = some k; secured = cfg; opened = 1; closed = 0 }

-- `dialTCP`; `is_closed` is what `IsClosed` answers. A builder that gives neither a configuration nor an
-- error is an error.
unfoldable pub dial_tcp : Outside → Bool → ClientOptions → Dialed
unfolding settle
dial_tcp out is_closed o =
    let (config, err) = out.build in
    if is_closed
    then refused
    else if o.ssl_enabled
    then (elim err [
      | some e ↦ refused
      | none ↦ elim config [
        | none ↦ refused
        | some c ↦ settle tcp_session (some c) (out.tls c) out.same_addr
      ]
    ])
    else settle tcp_session none out.tcp out.same_addr

-- The ping of `dialUDP`, on a socket that is open: a timeout of its answer is no failure.
unfoldable pub probe : Outside → Dialed
probe out = elim out.ping [
  | some e ↦ dropped none
  | none ↦ elim out.pong [
    | none ↦ record { session = some udp_session; secured = none; opened = 1; closed = 0 }
    | some e ↦
        if is_timeout e
        then record { session = some udp_session; secured = none; opened = 1; closed = 0 }
        else dropped none
  ]
]

-- `dialUDP`.
unfoldable pub dial_udp : Outside → Bool → Dialed
unfolding probe
dial_udp out is_closed = if is_closed then refused else (elim out.resolve [
  | some e ↦ refused
  | none ↦ elim out.udp [
    | some e ↦ refused
    | none ↦ if out.same_addr then dropped none else probe out
  ]
])

-- `dialWS`.
unfoldable pub dial_ws : Outside → Bool → Dialed
unfolding settle
dial_ws out is_closed =
    if is_closed then refused else settle ws_session none (out.ws none) out.same_addr

-- `dialWSS`.
unfoldable pub dial_wss : Outside → Store → Bool → ClientOptions → Dialed
unfolding settle
dial_wss out st is_closed o =
    let (config, err) = build_wss_client st o.cert in
    if is_closed then refused else (elim err [
      | some e ↦ refused
      | none ↦ settle ws_session config (out.ws config) out.same_addr
    ])

-- `dial`.
unfoldable pub dial : Outside → Store → EndPointType → Bool → ClientOptions → Dialed
unfolding dial_tcp dial_udp dial_ws dial_wss
dial out st kind is_closed o =
    if kind == tcp_client
    then dial_tcp out is_closed o
    else if kind == udp_client
    then dial_udp out is_closed
    else if kind == ws_client
    then dial_ws out is_closed
    else if kind == wss_client
    then dial_wss out st is_closed o
    else refused
