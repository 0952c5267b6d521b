-- ===== src/Connection/Tcp/Delivery.antt =====
-- `gettyTCPConn.Send`: the count that it returns against the bytes that left.
use getty.Common.{
  ℕ, ◌+◌, ◌≤◌, ◌≡◌, refl, inl, inr, Bool, true, false, Option, none, some, List, [], ◌∷◌, ◌++◌,
  length, take, append-nil, length-append, Option-cases, if◌then◌else◌, arith,
}
use getty.Errors.{IoError}
use getty.Connection.Net.{Bytes, concat, Pkg, bytes, batch, udp_context, other, Net, IsWriter}
use getty.Connection.Tcp.{TcpConn, flusher_write, write_buffers_from, conclude, transmit, send}

-- A write of `plain` from `c` reports the bytes that left, and all of them where it reports no error.
pub record Delivers {A : Type 0} (c : TcpConn) (plain : Bytes) (n : ℕ) (e : Option A) (c' : TcpConn)
    : Type 0 where
  pub appended : c'.delivered ≡ c.delivered ++ take n plain
  pub within : n ≤ length plain
  pub complete : e ≡ none → n ≡ length plain
  pub same_codec : c'.codec_enabled ≡ c.codec_enabled

abbrev Counts : Bytes → ℕ × Option IoError → Type 0
Counts plain r = (r.0 ≤ length plain) × (r.1 ≡ none → r.0 ≡ length plain)

module _ (net : Net) (w : IsWriter net) where
  flusher_write-Counts : (k : ℕ) (p : Bytes) → Counts p (flusher_write net k p)
  unfolding flusher_write
  flusher_write-Counts k p = ground (arith, w.encode_all k p)

  write_buffers_from-Counts :
      (k total : ℕ) (bs : List Bytes) (plain : Bytes)
      → length plain ≡ total + length (concat bs)
      → Counts plain (write_buffers_from net k total bs)
  unfolding write_buffers_from
  write_buffers_from-Counts k total [] plain h = ground arith
  write_buffers_from-Counts k total (b ∷ bs) plain h = elim (Option-cases (net.encode k b).1) [
    | inl e ↦
        rw (e, write_buffers_from)
          (write_buffers_from-Counts (k + 1) (total + (net.encode k b).0) bs plain
            (omega (arith, w.encode_all k b e, length-append b (concat bs))))
    | inr (x, e) ↦ rw (e, write_buffers_from) (ground arith)
  ]

  raw-Counts : (k : ℕ) (p : Bytes) → Counts p (net.write k p)
  raw-Counts k p = (w.write-le k p, w.write_all k p)

  raw_batch-Counts : (k : ℕ) (ps : List Bytes) → Counts (concat ps) (net.write_to k ps)
  raw_batch-Counts k ps = (w.write_to-le k ps, w.write_to_all k ps)

conclude-Delivers :
    (c₀ c : TcpConn) (plain : Bytes) (len pkgs : ℕ) (r : ℕ × Option IoError)
    → c.delivered ≡ c₀.delivered
    → c.codec_enabled ≡ c₀.codec_enabled
    → Counts plain r
    → let s = conclude c plain len pkgs r in Delivers c₀ plain s.0 s.1 s.2
unfolding conclude
conclude-Delivers c₀ c plain len pkgs (n, none) d e h = ground arith
conclude-Delivers c₀ c plain len pkgs (n, some x) d e h = ground arith

if-Counts :
    (b : Bool) (plain : Bytes) (r s : ℕ × Option IoError)
    → Counts plain r
    → Counts plain s
    → Counts plain (if b then r else s)
if-Counts true plain r s h k = h
if-Counts false plain r s h k = k

-- The bytes that a package stands for.
abbrev pub payload : Pkg → Bytes
payload (bytes p) = p
payload (batch ps) = concat ps
payload _ = []

module _ (net : Net) (w : IsWriter net) where
  transmit-Delivers :
      (c : TcpConn) (pkg : Pkg) → let s = transmit net c pkg in Delivers c (payload pkg) s.0 s.1 s.2
  unfolding transmit
  transmit-Delivers c (bytes p) = conclude-Delivers c _ p _ _ _ refl refl (
      if-Counts c.codec_enabled p _ _ (flusher_write-Counts net w c.calls p)
        (raw-Counts net w c.calls p))
  transmit-Delivers c (batch ps) = conclude-Delivers c _ (concat ps) _ _ _ refl refl (
      if-Counts c.codec_enabled (concat ps) _ _
        (write_buffers_from-Counts net w c.calls 0 ps (concat ps) (omega arith))
        (raw_batch-Counts net w c.calls ps))
  transmit-Delivers c (udp_context _ _) = ground (arith, append-nil c.delivered)
  transmit-Delivers c other = ground (arith, append-nil c.delivered)

  -- `Send` on tcp appends to the bytes that it confirmed exactly the prefix of the package that its
  -- count names, for a raw and for a compressed connection, also where it returns an error; the
  -- count is the whole length where it returns none.
  pub send-Delivers :
      (c : TcpConn) (pkg : Pkg) → let s = send net c pkg in Delivers c (payload pkg) s.0 s.1 s.2
  unfolding send
  send-Delivers c pkg = ground (
    arith,
    append-nil c.delivered,
    transmit-Delivers (record c { stream_started = true; calls = c.calls + 1 }) pkg,
  )
