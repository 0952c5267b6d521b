-- ===== src/Session/Receive/Loop.antt =====
-- The outer loop of `handleTCPPackage`: whatever the reads and their sizes, it hands on the packages
-- of the stream, and it ends each round.
use getty.Common.{
  ℕ, zero, suc, ◌+◌, ◌≡◌, refl, sym, ◌∙◌, ◌⊎◌, inl, inr, Bool, false, Option, none, some, [], ◌∷◌,
  ◌++◌, length, Bool-cases, arith,
}
use native.Mathlib.Nat.{add_comm}
use getty.Errors.{Error}
use getty.Connection.Net.{Bytes, Net}
use getty.Connection.Tcp.{TcpConn}
use getty.Connection.Tcp
use getty.Session.State.{max_read_buf_len}
use getty.Session.Receive.{
  Reader, decode_batch, Receiver, init_receiver, ReadEnd, classify, Exit, running, exited,
  exit_decoded, taken, absorb, handle_tcp_package,
}
use getty.Session.Receive.Stream.{
  IsFraming, decode_batch_mono, decode_batch_total, decode_batch-append,
}

module _ {P : Type 0} (read : Reader P) (w : IsFraming read) (max : ℕ) where
  -- Decoding the whole stream at once gives the packages that were handed on, and what is buffered.
  abbrev Follows : Receiver P → Option Error → Type 0
  Follows r e = (f : ℕ) × (decode_batch read f max r.received ≡ some (r.buffer, r.tasks, e))

  -- The loop goes on, or ends with the error of the decoder, if there is one.
  abbrev Ends : Receiver P → Exit → Type 0
  Ends r x = (e : Option Error) × Follows r e × ((e ≡ none) ⊎ (x ≡ exited e))

  absorb-Ends :
      (r : Receiver P) (d : Bytes × Option Error × TcpConn)
      → Follows r none
      → (r' : Receiver P) × (x : Exit) × (absorb read max r d ≡ some (r', x)) × Ends r' x
  unfolding absorb
  absorb-Ends r ([], e, c) (f, h) = (_, _, refl, (none, (f, h), inl refl))
  absorb-Ends r (b ∷ bs, e, c) (f, h) =
      let buf = r.buffer ++ b ∷ bs in
      let (out, eq) =
        decode_batch_total read (λ buf p n eq. (w.progress buf p n eq).0) max (suc (length buf)) buf
          (omega arith) in
      (
        taken read r (b ∷ bs) e c out,
        exit_decoded (classify e) out.2,
        ground (arith, eq),
        (
          out.2,
          (
            f + suc (length buf),
            decode_batch-append read w max f r.received (b ∷ bs) (suc (length buf)) r.buffer r.tasks
                out h eq,
          ),
          decoder_exit (classify e) out.2,
        ),
      )
    where
      decoder_exit : (k : ReadEnd) (e : Option Error) → (e ≡ none) ⊎ (exit_decoded k e ≡ exited e)
      decoder_exit k none = inl refl
      decoder_exit k (some e) = inr refl

  -- The loop goes on only where the decoder returned no error.
  next :
      (net : Net) (closed : ℕ → Bool) (k : ℕ) (r r₁ : Receiver P) (x₁ : Exit)
      → closed k ≡ false
      → absorb read max r (Tcp.recv net (closed k) r.conn max_read_buf_len) ≡ some (r₁, x₁)
      → Ends r₁ x₁
      → (Follows r₁ none
          → (r' : Receiver P) × (x : Exit) × (handle_tcp_package read net closed max k r₁
              ≡ some (r', x))
            × Ends r' x)
      → (r' : Receiver P) × (x : Exit) × (handle_tcp_package read net closed max (suc k) r
          ≡ some (r', x))
        × Ends r' x
  unfolding handle_tcp_package
  next net closed k r r₁ (exited e) go eq ends rest = (r₁, exited e, ground arith, ends)
  next net closed k r r₁ running go eq (none, f, o) rest =
      let (r', x, h, ends) = rest f in (r', x, ground arith, ends)
  next net closed k r r₁ running go eq (some e, f, inl o) rest = cc
  next net closed k r r₁ running go eq (some e, f, inr o) rest = cc

  handle_tcp_package-Ends :
      (net : Net) (closed : ℕ → Bool) (k : ℕ) (r : Receiver P)
      → Follows r none
      → (r' : Receiver P) × (x : Exit) × (handle_tcp_package read net closed max k r ≡ some (r', x))
        × Ends r' x
  unfolding handle_tcp_package
  handle_tcp_package-Ends net closed zero r h = (r, running, refl, (none, h, inl refl))
  handle_tcp_package-Ends net closed (suc k) r h = elim (Bool-cases (closed k)) [
    | inl stop ↦ (r, exited none, ground arith, (none, h, inl refl))
    | inr go ↦
        let d = Tcp.recv net (closed k) r.conn max_read_buf_len in
        let (r₁, x₁, eq, ends) = absorb-Ends r d h in
        next net closed k r r₁ x₁ go eq ends (λ f. handle_tcp_package-Ends net closed k r₁ f)
  ]

  -- For a decoder that frames a stream (`IsFraming`: a package with no error takes at least one byte, no more than
  -- there are, and is decoded alike where more bytes follow): however the stream is cut into reads, the packages
  -- handed to `addTask` are those that one decoding of all that was received gives, in that order, and the buffer
  -- is what that decoding leaves. If the decoding ends in an error, the loop has ended with that error. The
  -- inner loop ends in every round.
  pub handle_tcp_package-stream :
      (net : Net) (closed : ℕ → Bool) (k : ℕ) (c : TcpConn)
      → (r : Receiver P) × (x : Exit) × (e : Option Error) × (handle_tcp_package read net closed max
            k
            (init_receiver c)
          ≡ some (r, x))
        × (decode_batch read (length r.received) max r.received ≡ some (r.buffer, r.tasks, e))
        × ((e ≡ none) ⊎ (x ≡ exited e))
  handle_tcp_package-stream net closed k c =
      let (r, x, eq, (e, (f, h), o)) =
        handle_tcp_package-Ends net closed k (init_receiver c) (0, unfold decode_batch in refl) in
      let (out, tight) =
        decode_batch_total read (λ buf p n eq. (w.progress buf p n eq).0) max (length r.received)
          r.received (omega arith) in
      let wide = decode_batch_mono read max (length r.received) f r.received tight in
      let high = decode_batch_mono read max f (length r.received) r.received h in
      (r, x, e, eq, tight ∙ sym wide ∙ rw add_comm high, o)
