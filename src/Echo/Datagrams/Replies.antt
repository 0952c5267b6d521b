-- ===== src/Echo/Datagrams/Replies.antt =====
-- Requests of udp echo clients, on their way to the server and back to the peers that sent them.
use getty.Common.{
  ℕ, ◌≤◌, ◌<◌, ◌⊎◌, ◌≡◌, refl, sym, ap, ◌∙◌, Bool, true, false, ◌==◌, if◌then◌else◌, append-nil,
  Option, none, some, List, [], ◌∷◌, All, map, length, arith,
}
use getty.Connection.Net.{Bytes, Net}
use getty.Connection.Udp.{UdpConn}
use getty.Session.Receive.Udp.{
  Context, Datagram, equal, connect_ping_package, decode_datagram, datagram_error,
  init_udp_receiver, handle_udp_package,
}
use getty.Session.Receive.Datagrams.{tasks_of, handle_udp_package-tasks}
use getty.Echo.{Package, marshal, put_word, read}
use getty.Echo.RoundTrip.{IsPackage, length-marshal}
use getty.Echo.Batches.{read-marshal, Allowed}
use getty.Echo.Server.{pong, heartbeat_response}
use getty.Echo.Datagrams.{write, answer, handle_heartbeat, handle_message}

-- The datagrams that `OnMessage` writes for contexts that it gets one behind the other.
unfoldable pub replies : List (Context Package) → List Datagram
unfolding answer write
replies [] = []
replies (t ∷ ts) = elim (answer t) [
  | none ↦ replies ts
  | some q ↦ ((write (some q)).0, q.1) ∷ replies ts
]

-- Packages, each with its peer, as datagrams and as contexts.
abbrev pub datagram : Package × ℕ → Datagram
datagram (p, a) = (marshal p, some a)

abbrev pub context : Package × ℕ → Context Package
context (p, a) = (some p, some a)

abbrev pub with_pong : Package → Package
with_pong p = record { head = record (p.head) { len = 5 }; body = pong }

-- What a peer is to get for its request.
unfoldable pub expected : Package × ℕ → Package × ℕ
expected (p, a) = (if p.head.command == 0 then with_pong p else p, a)

marshal-ne-ping : (p : Package) → IsPackage p → equal connect_ping_package (marshal p) ≡ false
unfolding marshal put_word equal
marshal-ne-ping p v = rw v.magic refl

decode_read :
    (max n : ℕ) (bs : Bytes) (p : Package) (peer : Option ℕ)
    → 0 < length bs
    → equal connect_ping_package bs ≡ false
    → read bs ≡ (some p, n, none)
    → 0 < n
    → (max ≡ 0) ⊎ (length bs ≤ max)
    → decode_datagram read max (bs, peer) ≡ (none, (some p, peer) ∷ [])
unfolding decode_datagram datagram_error
decode_read max n [] p peer h e r m l = ground (arith, h)
decode_read max n (b ∷ bs) p peer h e r m l = ground (arith, e, r, m, l)

decode_marshal :
    (max : ℕ) (p : Package) (peer : Option ℕ)
    → IsPackage p
    → Allowed max
    → decode_datagram read max (marshal p, peer) ≡ (none, (some p, peer) ∷ [])
decode_marshal max p peer v a =
    let l = length-marshal p in
    decode_read max (length (marshal p)) (marshal p) p peer (omega (arith, l)) (marshal-ne-ping p v)
      (ap read (sym (append-nil (marshal p))) ∙ read-marshal p [] v) (omega (arith, l))
      (ground (arith, a, l, v.short))

tasks_of-datagrams :
    (max : ℕ) (ps : List (Package × ℕ))
    → All (λ q. IsPackage q.0) ps
    → Allowed max
    → tasks_of read max (map datagram ps) ≡ map context ps
tasks_of-datagrams max [] v a = refl
tasks_of-datagrams max ((p, k) ∷ ps) v a =
    ground (arith, decode_marshal max p (some k) v.0 a, tasks_of-datagrams max ps v.1 a)

pong-IsPackage : (p : Package) → IsPackage p → IsPackage (with_pong p)
pong-IsPackage p v = record {
  header = record {
    magic = v.header.magic;
    log_id = v.header.log_id;
    sequence = v.header.sequence;
    service_id = v.header.service_id;
    command = v.header.command;
    code = v.header.code;
    len = omega arith;
  };
  magic = v.magic;
  short = omega arith;
  len = refl;
}

choice-IsPackage : (b : Bool) (p : Package) → IsPackage p → IsPackage (if b then with_pong p else p)
choice-IsPackage true p v = pong-IsPackage p v
choice-IsPackage false p v = v

expected-IsPackage :
    (ps : List (Package × ℕ))
    → All (λ q. IsPackage q.0) ps
    → All (λ q. IsPackage q.0) (map expected ps)
unfolding expected
expected-IsPackage [] v = tt
expected-IsPackage ((p, k) ∷ ps) v =
    (choice-IsPackage (p.head.command == 0) p v.0, expected-IsPackage ps v.1)

replies-expected :
    (ps : List (Package × ℕ))
    → All (λ q. q.0.head.command ≤ 1) ps
    → replies (map context ps) ≡ map datagram (map expected ps)
unfolding replies answer write expected handle_heartbeat handle_message heartbeat_response
replies-expected [] c = refl
replies-expected ((p, k) ∷ ps) c = ground (arith, c.0, replies-expected ps c.1)

-- Where a loop on the server's socket received requests of any peers, each a datagram of its own, what
-- `OnMessage` writes is one datagram for each request, in order and to the peer that sent it, with `pong`
-- for a heartbeat and the request itself for another; and a client's loop makes of these datagrams those packages.
-- The commands are the two that the server knows, and each limit takes the longest package.
pub replies-reach :
    (net : Net) (closed : ℕ → Bool) (max max' k : ℕ) (c : UdpConn) (ps : List (Package × ℕ))
    → All (λ q. IsPackage q.0) ps
    → All (λ q. q.0.head.command ≤ 1) ps
    → Allowed max
    → Allowed max'
    → (handle_udp_package read max net closed k (init_udp_receiver c)).0.received ≡ map datagram ps
    → let out = replies (handle_udp_package read max net closed k (init_udp_receiver c)).0.tasks in
      (out ≡ map datagram (map expected ps))
      × (tasks_of read max' out ≡ map context (map expected ps))
replies-reach net closed max max' k c ps v w a a' h =
    let made = handle_udp_package-tasks read max net closed k c in
    let decoded = ap (tasks_of read max) h ∙ tasks_of-datagrams max ps v a in
    let out = ap replies (made ∙ decoded) ∙ replies-expected ps w in
    (
      out,
      ap (tasks_of read max') out
          ∙ tasks_of-datagrams max' (map expected ps) (expected-IsPackage ps v) a',
    )
