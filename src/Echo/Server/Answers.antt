-- ===== src/Echo/Server/Answers.antt =====
-- What the echo server writes for what it reads.
use getty.Common.{
  ℕ, ◌≤◌, ◌≡◌, ◌≢◌, refl, sym, ap, subst, ◌∙◌, Bool, none, some, List, [], ◌∷◌, ◌++◌, All, arith,
}
use getty.Connection.Net.{Bytes, Net}
use getty.Connection.Tcp.{TcpConn}
use getty.Session.Receive.{Receiver, init_receiver, Exit, handle_tcp_package}
use getty.Echo.{Package, read, write}
use getty.Echo.RoundTrip.{IsPackage}
use getty.Echo.Batches.{stream, Partial, Allowed}
use getty.Echo.Streams.{reads, handle_tcp_package-echo}
use getty.Echo.Server.{pong, handle_heartbeat, heartbeat_response, answer}

-- The bytes that `OnMessage` writes for packages that it gets one behind the other: `Write` of
-- `EchoPackageHandler` on each answer.
unfoldable pub replies : List Package → Bytes
unfolding answer write
replies [] = []
replies (p ∷ ps) = elim (answer p) [ none ↦ replies ps | some q ↦ (write (some q)).0 ++ replies ps ]

-- A command that the server knows.
abbrev pub IsCommand : Package → Type 0
IsCommand p = p.head.command ≤ 1

pub replies-stream : (ps : List Package) → All IsCommand ps → replies ps ≡ stream ps
unfolding replies answer write
replies-stream [] c = refl
replies-stream (p ∷ ps) c = ground (arith, c.0, replies-stream ps c.1)

All-prefix : (ps qs : List Package) → All IsCommand (ps ++ qs) → All IsCommand ps
All-prefix [] qs h = tt
All-prefix (p ∷ ps) qs h = (h.0, All-prefix ps qs h.1)

-- The server is an echo, byte by byte: while a peer sends a stream of packages with commands that the
-- server knows, up to some byte and in whatever cuts, the bytes that were received are those that the
-- handlers write, and behind them a part of one package. The limit takes the longest package.
pub server-echoes :
    (net : Net) (closed : ℕ → Bool) (max k : ℕ) (all : List Package) (c : TcpConn) (more : Bytes)
    → All IsPackage all
    → All IsCommand all
    → Allowed max
    → reads net closed k c ++ more ≡ stream all
    → (r : Receiver Package) × (x : Exit) × (left : List Package) × (handle_tcp_package read net
          closed max k
          (init_receiver c)
        ≡ some (r, x))
      × (all ≡ r.tasks ++ left)
      × (r.received ≡ replies r.tasks ++ r.buffer)
      × Partial left r.buffer
server-echoes net closed max k all c more v w a h =
    let (r, x, eq, s) = handle_tcp_package-echo net closed max k all c more v a h in
    let known = All-prefix r.tasks s.left (subst (All IsCommand) s.ordered w) in
    (
      r,
      x,
      s.left,
      eq,
      s.ordered,
      s.lossless ∙ ap (λ t. t ++ r.buffer) (sym (replies-stream r.tasks known)),
      s.part,
    )

-- A heartbeat is not answered by the response that the handler makes: where the request is not `pong`
-- itself, what is written is another package.
pub handle_heartbeat-ne : (p : Package) → p.body ≢ pong → handle_heartbeat p ≢ heartbeat_response p
unfolding handle_heartbeat heartbeat_response
handle_heartbeat-ne p h e = h (ap (λ (q : Package). q.body) e)
