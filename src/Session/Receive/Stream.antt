-- ===== src/Session/Receive/Stream.antt =====
-- The packages that `handleTCPPackage` hands on, against the stream that it received.
use getty.Common.{
  ℕ, zero, suc, ◌+◌, ◌≤◌, ◌<◌, ◌≡◌, refl, sym, ◌∙◌, ap, inl, inr, Option, none, some, List, [], ◌∷◌,
  ◌++◌, length, drop, drop-append_le, length-drop, Option-cases, arith,
}
use native.Mathlib.Nat.{suc-add, add_comm}
use getty.Errors.{Error}
use getty.Connection.Net.{Bytes}
use getty.Session.Receive.{Decoded, Reader, Batch, limit_error, decode_batch}

-- What the code relies on: a package takes some bytes of those shown, and is found again in front of
-- more bytes.
pub record IsFraming {P : Type 0} (read : Reader P) : Type 0 where
  pub progress :
      (buf : Bytes) (p : P) (n : ℕ) → read buf ≡ (some p, n, none) → (0 < n) × (n ≤ length buf)
  pub stable :
      (buf more : Bytes) (p : P) (n : ℕ)
      → read buf ≡ (some p, n, none)
      → read (buf ++ more) ≡ (some p, n, none)

module _ {P : Type 0} (read : Reader P) (max : ℕ) where
  -- A decoding that is not refused is a package with its length, or no package yet.
  accepted :
      (buf : Bytes) (p : P)
      → limit_error read max buf (read buf) ≡ none
      → (read buf).0 ≡ some p
      → (n : ℕ) × (read buf ≡ (some p, n, none))
        × (limit_error read max buf (some p, n, none) ≡ none)
  unfolding limit_error
  accepted buf p ok found = ((read buf).1, ground arith, ground arith)

  -- The three ways of a round of the inner loop.
  pub data Round (buf : Bytes) : Type 0 where
    refused : (e : Error) → limit_error read max buf (read buf) ≡ some e → Round buf
    stalled : limit_error read max buf (read buf) ≡ none → (read buf).0 ≡ none → Round buf
    cut : (p : P) → limit_error read max buf (read buf) ≡ none → (read buf).0 ≡ some p → Round buf

  pub round : (buf : Bytes) → Round buf
  round buf = elim (Option-cases (limit_error read max buf (read buf))) [
    | inr (e, h) ↦ refused e h
    | inl ok ↦ elim (Option-cases (read buf).0) [ inl h ↦ stalled ok h | inr (p, h) ↦ cut p ok h ]
  ]

  pub decode_refused :
      (f b : ℕ) (buf : Bytes) (e : Error)
      → limit_error read max (b ∷ buf) (read (b ∷ buf)) ≡ some e
      → decode_batch read (suc f) max (b ∷ buf) ≡ some (b ∷ buf, [], some e)
  unfolding decode_batch
  decode_refused f b buf e h = ground arith

  pub decode_stalled :
      (f b : ℕ) (buf : Bytes)
      → limit_error read max (b ∷ buf) (read (b ∷ buf)) ≡ none
      → (read (b ∷ buf)).0 ≡ none
      → decode_batch read (suc f) max (b ∷ buf) ≡ some (b ∷ buf, [], none)
  unfolding decode_batch
  decode_stalled f b buf ok h = ground arith

  -- A package in front of what the rest decodes to.
  abbrev pub with_front : P → Option (Batch P) → Option (Batch P)
  with_front p none = none
  with_front p (some (rest, ps, e)) = some (rest, p ∷ ps, e)

  pub decode_cut :
      (f b : ℕ) (buf : Bytes) (p : P)
      → limit_error read max (b ∷ buf) (read (b ∷ buf)) ≡ none
      → (read (b ∷ buf)).0 ≡ some p
      → decode_batch read (suc f) max (b ∷ buf)
        ≡ with_front p (decode_batch read f max (drop (read (b ∷ buf)).1 (b ∷ buf)))
  unfolding decode_batch
  decode_cut f b buf p ok h = ground arith

  with_front_mono :
      (p : P) (x y : Option (Batch P)) (r : Batch P)
      → with_front p x ≡ some r
      → ((r' : Batch P) → x ≡ some r' → y ≡ some r')
      → with_front p y ≡ some r
  with_front_mono p none y r h up = cc
  with_front_mono p (some x) y r h up = rw (up x refl) h

  pub with_front-eq-some :
      (p : P) (x : Option (Batch P)) (rest : Bytes) (ps : List P) (e : Option Error)
      → with_front p x ≡ some (rest, ps, e)
      → (qs : List P) × (x ≡ some (rest, qs, e)) × (ps ≡ p ∷ qs)
  with_front-eq-some p none rest ps e h = cc
  with_front-eq-some p (some (rest', qs, e')) rest ps e h = (qs, ground arith, ground arith)

  -- A decoding that ended does not depend on the fuel.
  pub decode_batch_mono :
      (f k : ℕ) (buf : Bytes) {r : Batch P}
      → decode_batch read f max buf ≡ some r
      → decode_batch read (f + k) max buf ≡ some r
  unfolding decode_batch
  decode_batch_mono f k [] h = h
  decode_batch_mono zero k (b ∷ buf) h = cc
  decode_batch_mono (suc f) k (b ∷ buf) h = elim (round (b ∷ buf)) [
    | refused e x ↦
        ground (arith, decode_refused f b buf e x, decode_refused (f + k) b buf e x, suc-add f k, h)
    | stalled ok x ↦
        ground
          (arith, decode_stalled f b buf ok x, decode_stalled (f + k) b buf ok x, suc-add f k, h)
    | cut p ok x ↦
        let rest = drop (read (b ∷ buf)).1 (b ∷ buf) in
        rw suc-add (
          decode_cut (f + k) b buf p ok x
          ∙ with_front_mono p (decode_batch read f max rest) _ _
              (sym (decode_cut f b buf p ok x) ∙ h) (λ r' e. decode_batch_mono f k rest e))
  ]

-- A package takes some of the bytes.
abbrev pub Progress : {P : Type 0} → Reader P → Type 0
Progress {P} read = (buf : Bytes) (p : P) (n : ℕ) → read buf ≡ (some p, n, none) → 0 < n

module _ {P : Type 0} (read : Reader P) (progress : Progress read) (max : ℕ) where
  -- The inner loop ends: the fuel that the model gives is enough.
  pub decode_batch_total :
      (f : ℕ) (buf : Bytes)
      → length buf ≤ f
      → (r : Batch P) × (decode_batch read f max buf ≡ some r)
  unfolding decode_batch
  decode_batch_total f [] h = (([], [], none), refl)
  decode_batch_total zero (b ∷ buf) h = absurd (omega arith)
  decode_batch_total (suc f) (b ∷ buf) h = elim (round read max (b ∷ buf)) [
    | refused e x ↦ ((b ∷ buf, [], some e), decode_refused read max f b buf e x)
    | stalled ok x ↦ ((b ∷ buf, [], none), decode_stalled read max f b buf ok x)
    | cut p ok x ↦
        let (n, eq, _) = accepted read max (b ∷ buf) p ok x in
        let some_bytes = progress (b ∷ buf) p n eq in
        let ((rest, ps, e), ih) = decode_batch_total f (drop (read (b ∷ buf)).1 (b ∷ buf)) (
          omega
            (arith, length-drop (read (b ∷ buf)).1 (b ∷ buf), ap (λ (r : Decoded P). r.1) eq)) in
        ((rest, p ∷ ps, e), decode_cut read max f b buf p ok x ∙ ap (with_front read max p) ih)
  ]

module _ {P : Type 0} (read : Reader P) (w : IsFraming read) (max : ℕ) where
  ended : (x y : Batch P) → some x ≡ some y → (y.0 ≡ x.0) × (y.1 ≡ x.1)
  ended x y h = ground arith

  more_behind :
      (f g : ℕ) (buf more rest : Bytes) (ps : List P) (r : Batch P)
      → rest ≡ buf
      → ps ≡ []
      → decode_batch read g max (rest ++ more) ≡ some r
      → decode_batch read (f + g) max (buf ++ more) ≡ some (r.0, ps ++ r.1, r.2)
  more_behind f g buf more rest ps r same nothing k =
      rw (nothing, add_comm f g) (decode_batch_mono read max g f (buf ++ more) (rw same at k))

  -- A package is cut from the front as before when more bytes stand behind.
  cut_append :
      (f b n : ℕ) (buf more : Bytes) (p : P)
      → read (b ∷ buf) ≡ (some p, n, none)
      → limit_error read max (b ∷ buf) (some p, n, none) ≡ none
      → decode_batch read (suc f) max (b ∷ (buf ++ more))
        ≡ with_front read max p (decode_batch read f max (drop n (b ∷ buf) ++ more))
  unfolding limit_error
  cut_append f b n buf more p eq fits =
      let again = w.stable (b ∷ buf) more p n eq in
      let short = (w.progress (b ∷ buf) p n eq).1 in
      decode_cut read max f b (buf ++ more) p (rw again fits) (ap (λ (r : Decoded P). r.0) again)
      ∙ ap (λ t. with_front read max p (decode_batch read f max t))
          (ap (λ (r : Decoded P). drop r.1 (b ∷ (buf ++ more))) again
            ∙ drop-append_le n (b ∷ buf) more short)

  -- Decoding all at once what came in two parts.
  pub decode_batch-append :
      (f : ℕ) (buf more : Bytes) (g : ℕ) (rest : Bytes) (ps : List P) (r : Batch P)
      → decode_batch read f max buf ≡ some (rest, ps, none)
      → decode_batch read g max (rest ++ more) ≡ some r
      → decode_batch read (f + g) max (buf ++ more) ≡ some (r.0, ps ++ r.1, r.2)
  decode_batch-append f [] more g rest ps r h k =
      let (same, nothing) = ended ([], [], none) (rest, ps, none) (unfold decode_batch in h) in
      more_behind f g [] more rest ps r same nothing k
  decode_batch-append zero (b ∷ buf) more g rest ps r h k = unfold decode_batch in cc
  decode_batch-append (suc f) (b ∷ buf) more g rest ps r h k = elim (round read max (b ∷ buf)) [
    | refused e x ↦ absurd (cc (decode_refused read max f b buf e x))
    | stalled ok x ↦
        let (same, nothing) =
          ended (b ∷ buf, [], none) (rest, ps, none)
            (sym (decode_stalled read max f b buf ok x) ∙ h) in
        more_behind (suc f) g (b ∷ buf) more rest ps r same nothing k
    | cut p ok x ↦
        let (n, eq, fits) = accepted read max (b ∷ buf) p ok x in
        let (qs, rest_eq, same) =
          with_front-eq-some read max p _ rest ps none
            (sym (decode_cut read max f b buf p ok x) ∙ h) in
        let inner = rw (ap (λ (t : Decoded P). t.1) eq) at rest_eq in
        rw (suc-add, same)
          (cut_append (f + g) b n buf more p eq fits
            ∙ ap (with_front read max p)
                (decode_batch-append f (drop n (b ∷ buf)) more g rest qs r inner k))
  ]
