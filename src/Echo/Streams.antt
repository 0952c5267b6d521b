-- ===== src/Echo/Streams.antt =====
-- `handleTCPPackage` with the echo protocol: what arrives of a stream of packages.
use getty.Common.{
  ℕ, zero, suc, ◌≡◌, refl, sym, ap, subst, ◌∙◌, Bool, false, Option, none, some, List, [], ◌∷◌,
  ◌++◌, length, append-nil, append_assoc, All, Bool-cases, inl, inr, arith,
}
use getty.Errors.{Error}
use getty.Connection.Net.{Bytes, Net}
use getty.Connection.Tcp.{TcpConn}
use getty.Connection.Tcp
use getty.Session.State.{max_read_buf_len}
use getty.Session.Receive.{
  Receiver, init_receiver, Exit, running, exited, classify, exit_decoded, taken, absorb,
  handle_tcp_package,
}
use getty.Echo.{Package, marshal, read}
use getty.Echo.RoundTrip.{IsPackage, length-marshal}
use getty.Echo.Batches.{stream, Partial, Allowed, decode_stream}

-- What a number of reads give, one behind the other.
unfoldable pub reads : Net → (ℕ → Bool) → ℕ → TcpConn → Bytes
reads net closed zero c = []
reads net closed (suc k) c =
    let d = Tcp.recv net (closed k) c max_read_buf_len in d.0 ++ reads net closed k d.2

-- The packages handed on are the first of the stream, and a part of the next one is buffered.
pub record Serves (all : List Package) (r : Receiver Package) : Type 0 where
  pub left : List Package
  pub ordered : all ≡ r.tasks ++ left
  pub lossless : r.received ≡ stream r.tasks ++ r.buffer
  pub part : Partial left r.buffer

abbrev Result : List Package → Option (Receiver Package × Exit) → Type 0
Result all o = (r : Receiver Package) × (x : Exit) × (o ≡ some (r, x)) × Serves all r

stream-append : (ps qs : List Package) → stream (ps ++ qs) ≡ stream ps ++ stream qs
stream-append [] qs = refl
stream-append (p ∷ ps) qs = rw (stream-append ps qs, append_assoc) refl

All-suffix : (ps qs : List Package) → All IsPackage (ps ++ qs) → All IsPackage qs
All-suffix [] qs h = h
All-suffix (p ∷ ps) qs h = All-suffix ps qs h.1

append-cancel : (xs ys zs : Bytes) → xs ++ ys ≡ xs ++ zs → ys ≡ zs
append-cancel [] ys zs h = h
append-cancel (x ∷ xs) ys zs h = append-cancel xs ys zs (ground (arith, h))

-- What is buffered, and read then, continues to the packages that are left.
ahead :
    (all : List Package) (r : Receiver Package) (got more : Bytes) (s : Serves all r)
    → (r.received ++ got) ++ more ≡ stream all
    → (r.buffer ++ got) ++ more ≡ stream s.left
ahead all r got more s h =
    let start = stream r.tasks in
    append-cancel start ((r.buffer ++ got) ++ more) (stream s.left) (
      regroup start r.buffer got more
      ∙ ap (λ t. (t ++ got) ++ more) (sym s.lossless)
      ∙ h
      ∙ ap stream s.ordered
      ∙ stream-append r.tasks s.left)
  where
    regroup : (xs bs cs ds : Bytes) → xs ++ ((bs ++ cs) ++ ds) ≡ ((xs ++ bs) ++ cs) ++ ds
    regroup xs bs cs ds = simp append_assoc refl

-- The bytes of the tasks and of the buffer behind a decoding.
whole_stream :
    (r : Receiver Package) (got rest : Bytes) (done : List Package)
    → r.received ≡ stream r.tasks ++ r.buffer
    → r.buffer ++ got ≡ stream done ++ rest
    → r.received ++ got ≡ stream (r.tasks ++ done) ++ rest
whole_stream r got rest done h k =
    ap (λ t. t ++ got) h
    ∙ append_assoc (stream r.tasks) r.buffer got
    ∙ ap (λ t. stream r.tasks ++ t) k
    ∙ sym (append_assoc (stream r.tasks) (stream done) rest)
    ∙ ap (λ t. t ++ rest) (sym (stream-append r.tasks done))

absorb-Serves :
    (max : ℕ) (all : List Package) (r : Receiver Package) (d : Bytes × Option Error × TcpConn)
    (more : Bytes)
    → All IsPackage all
    → Allowed max
    → Serves all r
    → (r.received ++ d.0) ++ more ≡ stream all
    → (r' : Receiver Package) × (x : Exit) × (absorb read max r d ≡ some (r', x))
      × Serves all r'
      × (r'.received ≡ r.received ++ d.0)
      × (r'.conn ≡ d.2)
unfolding absorb
absorb-Serves max all r ([], e, c) more v a s h = (
  _,
  _,
  refl,
  record { left = s.left; ordered = s.ordered; lossless = s.lossless; part = s.part },
  sym (append-nil r.received),
  refl,
)
absorb-Serves max all r (b ∷ bs, e, c) more v a s h =
    let buf = r.buffer ++ b ∷ bs in
    let next_bytes = ahead all r (b ∷ bs) more s h in
    let (done, left, rest, cut, run, whole, part) =
      decode_stream (suc (length buf)) max s.left buf more
        (All-suffix r.tasks s.left (subst (All IsPackage) s.ordered v)) a (omega arith)
        next_bytes in
    (
      taken read r (b ∷ bs) e c (rest, done, none),
      exit_decoded (classify e) none,
      ground (arith, run),
      record {
        left = left;
        ordered = s.ordered ∙ ap (λ t. r.tasks ++ t) cut ∙ sym (append_assoc r.tasks done left);
        lossless = whole_stream r (b ∷ bs) rest done s.lossless whole;
        part = part;
      },
      refl,
      refl,
    )

-- A round that goes on, and one that exits.
next :
    (net : Net) (closed : ℕ → Bool) (max k : ℕ) (all : List Package) (r r₁ : Receiver Package)
    (x₁ : Exit)
    → closed k ≡ false
    → absorb read max r (Tcp.recv net (closed k) r.conn max_read_buf_len) ≡ some (r₁, x₁)
    → Serves all r₁
    → Result all (handle_tcp_package read net closed max k r₁)
    → Result all (handle_tcp_package read net closed max (suc k) r)
unfolding handle_tcp_package
next net closed max k all r r₁ (exited e) go eq s rest = (r₁, exited e, ground (arith, go, eq), s)
next net closed max k all r r₁ running go eq s (r', x, h, t) = (r', x, ground (arith, go, eq, h), t)

handle_tcp_package-Serves :
    (net : Net) (closed : ℕ → Bool) (max k : ℕ) (all : List Package) (r : Receiver Package)
    (more : Bytes)
    → All IsPackage all
    → Allowed max
    → Serves all r
    → (r.received ++ reads net closed k r.conn) ++ more ≡ stream all
    → Result all (handle_tcp_package read net closed max k r)
unfolding handle_tcp_package reads
handle_tcp_package-Serves net closed max zero all r more v a s h = (r, running, refl, s)
handle_tcp_package-Serves net closed max (suc k) all r more v a s h = elim (Bool-cases (closed k)) [
  | inl stop ↦ (r, exited none, ground (arith, stop), s)
  | inr go ↦
      let d = Tcp.recv net (closed k) r.conn max_read_buf_len in
      let later = reads net closed k d.2 in
      let split : (r.received ++ d.0) ++ (later ++ more) ≡ stream all =
        regroup r.received d.0 later more ∙ h in
      let (r₁, x₁, eq, t, got, at_conn) = absorb-Serves max all r d (later ++ more) v a s split in
      let on : (r₁.received ++ reads net closed k r₁.conn) ++ more ≡ stream all =
        ap (λ c. (r₁.received ++ reads net closed k c) ++ more) at_conn
        ∙ ap (λ t. (t ++ later) ++ more) got
        ∙ append_assoc (r.received ++ d.0) later more
        ∙ split in
      next net closed max k all r r₁ x₁ go eq t
        (handle_tcp_package-Serves net closed max k all r₁ more v a t on)
]
  where
    regroup : (xs bs cs ds : Bytes) → (xs ++ bs) ++ (cs ++ ds) ≡ (xs ++ (bs ++ cs)) ++ ds
    regroup xs bs cs ds = simp append_assoc refl

-- While what the peer sends is a stream of packages, up to some byte: the receive loop ends its rounds and
-- hands on the first packages of the stream, as they were sent, each once and in order, however the reads
-- cut them; all that it received is in those packages and the buffer, which never holds a whole one. The
-- limit, if there is one, takes the longest package.
pub handle_tcp_package-echo :
    (net : Net) (closed : ℕ → Bool) (max k : ℕ) (all : List Package) (c : TcpConn) (more : Bytes)
    → All IsPackage all
    → Allowed max
    → reads net closed k c ++ more ≡ stream all
    → (r : Receiver Package) × (x : Exit) × (handle_tcp_package read net closed max k
          (init_receiver c)
        ≡ some (r, x))
      × Serves all r
handle_tcp_package-echo net closed max k all c more v a h =
    handle_tcp_package-Serves net closed max k all (init_receiver c) more v a
      (record { left = all; ordered = refl; lossless = refl; part = nothing all v }) h
  where
    nothing : (ps : List Package) → All IsPackage ps → Partial ps []
    nothing [] v = refl
    nothing (p ∷ ps) v = (marshal p, refl, omega (arith, length-marshal p))
