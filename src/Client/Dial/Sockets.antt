-- ===== src/Client/Dial/Sockets.antt =====
-- What an attempt to connect leaves open, and what it is secured with.
use Prim.Native.String.{String}
use getty.Common.{
  ◌+◌, ◌≤◌, ◌≡◌, ◌⊎◌, refl, subst, sym, Bool, true, false, Option, none, some, ◌==◌, if◌then◌else◌,
  is_some, Option-cases, Bool-cases, inl, inr, arith,
}
use getty.Errors.{IoError}
use getty.Constants.{EndPointType, udp_client, tcp_client, ws_client, wss_client}
use getty.Options.{ClientOptions}
use getty.Tls.{Store, Config, build_wss_client, trust_pool}
use getty.Client.Dial.{
  Outside, Kind, tcp_session, ws_session, Dialed, refused, dropped, settle, dial_tcp, probe,
  dial_udp, dial_ws, dial_wss, dial,
}

-- A socket is open exactly where there is a session for it; a closed client opens none; and a socket that was
-- opened went through the handshake with the configuration that its kind wants, and with one where it wants one.
pub record Safe (is_closed : Bool) (tls : Bool) (wanted : Option Config) (d : Dialed) : Type 0 where
  pub held : d.opened ≡ d.closed + (if is_some d.session then 1 else 0)
  pub at_most : d.opened ≤ (if is_closed then 0 else 1)
  pub secure : (d.opened ≡ 0) ⊎ ((d.secured ≡ wanted) × (is_some d.secured ≡ tls))

settle-Safe :
    (k : Kind) (cfg : Option Config) (e : Option IoError) (same : Bool)
    → Safe false (is_some cfg) cfg (settle k cfg e same)
unfolding settle
settle-Safe k cfg none true = record {
  held = refl;
  at_most = omega arith;
  secure = inr (refl, refl);
}
settle-Safe k cfg none false = record {
  held = refl;
  at_most = omega arith;
  secure = inr (refl, refl);
}
settle-Safe k cfg (some e) same = record { held = refl; at_most = omega arith; secure = inl refl }

refused-Safe : (b tls : Bool) (wanted : Option Config) → Safe b tls wanted refused
refused-Safe b tls wanted = record { held = refl; at_most = omega arith; secure = inl refl }

dropped-Safe : Safe false false none (dropped none)
dropped-Safe = record { held = refl; at_most = omega arith; secure = inr (refl, refl) }

probe-Safe : (out : Outside) → Safe false false none (probe out)
unfolding probe
probe-Safe out = record {
  held = ground arith;
  at_most = ground arith;
  secure = inr (ground arith, ground arith);
}

-- What a client wants of its handshake: whether there is one, and with which configuration.
abbrev pub wants_tls : EndPointType → ClientOptions → Bool
wants_tls kind o = if kind == tcp_client then o.ssl_enabled else kind == wss_client

abbrev pub wanted : Outside → Store → EndPointType → ClientOptions → Option Config
wanted out st kind o =
    if kind == tcp_client
    then (if o.ssl_enabled then out.build.0 else none)
    else if kind == wss_client
    then (build_wss_client st o.cert).0
    else none

comes_to :
    {b tls : Bool} {w : Option Config} {d x : Dialed} → d ≡ x → Safe b tls w x → Safe b tls w d
comes_to {b} {tls} {w} {d} {x} e h = subst (Safe b tls w) {x = x} {y = d} (sym e) h

dial_tls-Safe :
    (out : Outside) (o : ClientOptions)
    → o.ssl_enabled ≡ true
    → Safe false true out.build.0 (dial_tcp out false o)
unfolding dial_tcp
dial_tls-Safe out o s = elim (Option-cases out.build.1) [
  | inr (x, e) ↦ comes_to (ground (arith, s, e)) (refused-Safe false true out.build.0)
  | inl e ↦ elim (Option-cases out.build.0) [
    | inl n ↦ comes_to (ground (arith, s, e, n)) (refused-Safe false true out.build.0)
    | inr (c, n) ↦
        subst (λ w. Safe false true w (dial_tcp out false o)) (sym n)
          (comes_to (ground (arith, s, e, n))
            (settle-Safe tcp_session (some c) (out.tls c) out.same_addr))
  ]
]

dial_raw-Safe :
    (out : Outside) (o : ClientOptions)
    → o.ssl_enabled ≡ false
    → Safe false false none (dial_tcp out false o)
unfolding dial_tcp
dial_raw-Safe out o s =
    comes_to (ground (arith, s)) (settle-Safe tcp_session none out.tcp out.same_addr)

dial_tcp-Safe :
    (out : Outside) (b : Bool) (o : ClientOptions)
    → Safe b o.ssl_enabled (if o.ssl_enabled then out.build.0 else none) (dial_tcp out b o)
unfolding dial_tcp
dial_tcp-Safe out true o =
    refused-Safe true o.ssl_enabled (if o.ssl_enabled then out.build.0 else none)
dial_tcp-Safe out false o = elim (Bool-cases o.ssl_enabled) [
  | inl s ↦
      subst (λ t. Safe false t (if t then out.build.0 else none) (dial_tcp out false o)) (sym s)
        (dial_tls-Safe out o s)
  | inr s ↦
      subst (λ t. Safe false t (if t then out.build.0 else none) (dial_tcp out false o)) (sym s)
        (dial_raw-Safe out o s)
]

dial_udp-Safe : (out : Outside) (b : Bool) → Safe b false none (dial_udp out b)
unfolding dial_udp
dial_udp-Safe out true = refused-Safe true false none
dial_udp-Safe out false = elim (Option-cases out.resolve) [
  | inr (x, e) ↦ comes_to (ground (arith, e)) (refused-Safe false false none)
  | inl e ↦ elim (Option-cases out.udp) [
    | inr (x, n) ↦ comes_to (ground (arith, e, n)) (refused-Safe false false none)
    | inl n ↦ elim (Bool-cases out.same_addr) [
      | inl s ↦ comes_to (ground (arith, e, n, s)) dropped-Safe
      | inr s ↦ comes_to (ground (arith, e, n, s)) (probe-Safe out)
    ]
  ]
]

dial_ws-Safe : (out : Outside) (b : Bool) → Safe b false none (dial_ws out b)
unfolding dial_ws
dial_ws-Safe out true = refused-Safe true false none
dial_ws-Safe out false = settle-Safe ws_session none (out.ws none) out.same_addr

build_wss_client-config :
    (st : Store) (path : String)
    → (build_wss_client st path).1 ≡ none
    → is_some (build_wss_client st path).0 ≡ true
unfolding build_wss_client trust_pool
build_wss_client-config st path h = ground (arith, h)

dial_wss-Safe :
    (out : Outside) (st : Store) (b : Bool) (o : ClientOptions)
    → Safe b true (build_wss_client st o.cert).0 (dial_wss out st b o)
unfolding dial_wss
dial_wss-Safe out st true o = refused-Safe true true (build_wss_client st o.cert).0
dial_wss-Safe out st false o =
    let config = (build_wss_client st o.cert).0 in
    elim (Option-cases (build_wss_client st o.cert).1) [
      | inr (x, e) ↦ comes_to (ground (arith, e)) (refused-Safe false true config)
      | inl e ↦
          subst (λ t. Safe false t config (dial_wss out st false o))
            (build_wss_client-config st o.cert e)
            (comes_to (ground (arith, e))
              (settle-Safe ws_session config (out.ws config) out.same_addr))
    ]

kinds :
    (kind : EndPointType)
    → (kind ≡ tcp_client)
      ⊎ (kind ≡ udp_client)
      ⊎ (kind ≡ ws_client)
      ⊎ (kind ≡ wss_client)
      ⊎ ((kind == tcp_client) ≡ false)
        × ((kind == udp_client) ≡ false)
        × ((kind == ws_client) ≡ false)
        × ((kind == wss_client) ≡ false)
kinds kind = elim (Bool-cases (kind == tcp_client)) [
  | inl h ↦ inl (ground (arith, h))
  | inr p ↦ elim (Bool-cases (kind == udp_client)) [
    | inl h ↦ inr (inl (ground (arith, h)))
    | inr q ↦ elim (Bool-cases (kind == ws_client)) [
      | inl h ↦ inr (inr (inl (ground (arith, h))))
      | inr r ↦ elim (Bool-cases (kind == wss_client)) [
        | inl h ↦ inr (inr (inr (inl (ground (arith, h)))))
        | inr s ↦ inr (inr (inr (inr (p, q, r, s))))
      ]
    ]
  ]
]

-- One attempt to connect, whatever the network and the builder of the configuration answer: a
-- socket that was opened is closed again or is that of the session that is returned, so none
-- leaks; a closed client opens none; and a client of TLS opens no socket without a handshake,
-- which has the configuration that its builder gave, also where the builder gave neither a
-- configuration nor an error.
pub dial-Safe :
    (out : Outside) (st : Store) (kind : EndPointType) (b : Bool) (o : ClientOptions)
    → Safe b (wants_tls kind o) (wanted out st kind o) (dial out st kind b o)
unfolding dial
dial-Safe out st kind b o =
    let Goal : EndPointType → Type 0 =
      λ k. Safe b (wants_tls k o) (wanted out st k o) (dial out st k b o) in
    elim (kinds kind) [
      | inl h ↦ subst Goal {x = tcp_client} (sym h) (dial_tcp-Safe out b o)
      | inr (inl h) ↦ subst Goal {x = udp_client} (sym h) (dial_udp-Safe out b)
      | inr (inr (inl h)) ↦ subst Goal {x = ws_client} (sym h) (dial_ws-Safe out b)
      | inr (inr (inr (inl h))) ↦ subst Goal {x = wss_client} (sym h) (dial_wss-Safe out st b o)
      | inr (inr (inr (inr (p, q, r, s)))) ↦ rw (p, q, r, s) (refused-Safe b false none)
    ]
