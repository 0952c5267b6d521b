-- ===== src/Session/Receive/Limits.antt =====
-- The receive limit of `handleTCPPackage`, and what a decoder that takes no bytes does to the loop.
use getty.Common.{
  ℕ, zero, suc, ◌≤◌, ◌<◌, ◌≡◌, refl, sym, ◌∙◌, ◌⊎◌, inl, inr, Bool, Option, none, some, List, [],
  ◌∷◌, length, drop, arith,
}
use getty.Errors.{Error}
use getty.Connection.Net.{Bytes, Net}
use getty.Connection.Tcp.{TcpConn}
use getty.Session.Receive.{
  Reader, limit_error, decode_batch, Receiver, init_receiver, running, exited, Exit,
  handle_tcp_package,
}
use getty.Session.Receive.Stream.{
  IsFraming, round, refused, stalled, cut, decode_refused, decode_stalled, decode_cut,
  with_front-eq-some,
}
use getty.Session.Receive.Loop.{handle_tcp_package-stream}

module _ {P : Type 0} (read : Reader P) (max : ℕ) where
  stalled_fits :
      (buf : Bytes)
      → 0 < max
      → limit_error read max buf (read buf) ≡ none
      → (read buf).0 ≡ none
      → length buf ≤ max
  unfolding limit_error
  stalled_fits buf h ok none_yet = ground arith

  -- What is left to buffer is within the limit, or the decoding ended in an error.
  decode_batch-le :
      (f : ℕ) (buf rest : Bytes) (ps : List P)
      → 0 < max
      → decode_batch read f max buf ≡ some (rest, ps, none)
      → length rest ≤ max
  unfolding decode_batch
  decode_batch-le f [] rest ps h e = ground arith
  decode_batch-le zero (b ∷ buf) rest ps h e = cc
  decode_batch-le (suc f) (b ∷ buf) rest ps h e = elim (round read max (b ∷ buf)) [
    | refused x r ↦ absurd (cc (decode_refused read max f b buf x r))
    | stalled ok r ↦
        ground (arith, decode_stalled read max f b buf ok r, stalled_fits (b ∷ buf) h ok r)
    | cut p ok r ↦
        let (qs, inner, same) =
          with_front-eq-some read max p _ rest ps none
            (sym (decode_cut read max f b buf p ok r) ∙ e) in
        decode_batch-le f (drop (read (b ∷ buf)).1 (b ∷ buf)) rest qs h inner
  ]

  -- A decoder that returns a package and the length 0 holds the inner loop for ever: no number of
  -- rounds ends it, where the limit lets the package pass.
  pub decode_batch-stuck :
      (f b : ℕ) (buf : Bytes) (p : P)
      → read (b ∷ buf) ≡ (some p, 0, none)
      → decode_batch read f max (b ∷ buf) ≡ none
  unfolding decode_batch limit_error
  decode_batch-stuck zero b buf p h = refl
  decode_batch-stuck (suc f) b buf p h = ground (arith, decode_batch-stuck f b buf p h)

running_le :
    {P : Type 0} (read : Reader P) (max f : ℕ) (r r' : Receiver P) (x : Exit) (e : Option Error)
    → 0 < max
    → ◌≡◌ {A = Option (Receiver P × Exit)} (some (r', x)) (some (r, running))
    → decode_batch read f max r'.received ≡ some (r'.buffer, r'.tasks, e)
    → (e ≡ none) ⊎ (x ≡ exited e)
    → length r.buffer ≤ max
running_le read max f r r' x none h same d o =
    ground (arith, decode_batch-le read max f r'.received r'.buffer r'.tasks h d)
running_le read max f r r' x (some e) h same d (inl o) = cc
running_le read max f r r' x (some e) h same d (inr o) = cc

-- For a decoder that frames a stream (`IsFraming`), and with a limit set: between two rounds of the outer loop, as long
-- as it goes on, the bytes that it buffers are no more than the limit. Within a round a batch may be longer.
pub buffer-le-max :
    {P : Type 0} (read : Reader P)
    → IsFraming read
    → (net : Net) (closed : ℕ → Bool) (max k : ℕ) (c : TcpConn) (r : Receiver P) → 0 < max
    → handle_tcp_package read net closed max k (init_receiver c) ≡ some (r, running)
    → length r.buffer ≤ max
buffer-le-max read w net closed max k c r h e =
    let (r', x, err, eq, d, o) = handle_tcp_package-stream read w max net closed k c in
    running_le read max (length r'.received) r r' x err h (sym eq ∙ e) d o
