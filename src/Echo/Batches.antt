-- ===== src/Echo/Batches.antt =====
-- The echo protocol on a stream: packages behind each other, and a part of the next one.
use getty.Common.{
  ℕ, zero, suc, ◌+◌, ◌≤◌, ◌<◌, ◌≡◌, refl, sym, ap, ◌∙◌, ◌⊎◌, inl, inr, none, some, List, [], ◌∷◌,
  ◌++◌, ltb, length, drop, append_assoc, length-append, length-drop, drop-append_le, drop-append,
  All, Bool-cases, arith,
}
use getty.Connection.Net.{Bytes}
use getty.Echo.{
  Header, Package, echo_pkg_magic, get_word, signed32, not_enough_stream, marshal, get_header,
  unmarshal, read,
}
use getty.Echo.RoundTrip.{
  IsPackage, unmarshal-marshal, length-marshal, get_header-words, get_header-marshal,
}
use getty.Session.Receive.{Decoded, limit_error, decode_batch}
use getty.Session.Receive.Stream.{decode_cut, decode_stalled, with_front}

pub read-marshal :
    (p : Package) (rest : Bytes)
    → IsPackage p
    → read (marshal p ++ rest) ≡ (some p, length (marshal p), none)
unfolding read
read-marshal p rest v = ground (arith, unmarshal-marshal p rest v)

get_word-append : (n : ℕ) (xs ys : Bytes) → n ≤ length xs → get_word n xs ≡ get_word n (xs ++ ys)
unfolding get_word
get_word-append zero xs ys h = refl
get_word-append (suc n) [] ys h = absurd (omega arith)
get_word-append (suc n) (x ∷ xs) ys h = ground (arith, get_word-append n xs ys)

get_word-drop :
    (n k : ℕ) (xs ys : Bytes)
    → k + n ≤ length xs
    → get_word n (drop k xs) ≡ get_word n (drop k (xs ++ ys))
get_word-drop n k xs ys h =
    get_word-append n (drop k xs) ys (omega (arith, length-drop k xs))
    ∙ ap (get_word n) (sym (drop-append_le k xs ys (omega arith)))

get_header-append : (xs ys : Bytes) → 32 ≤ length xs → get_header xs ≡ get_header (xs ++ ys)
unfolding get_header
get_header-append xs ys h =
    get_header-words xs (get_header (xs ++ ys)) (get_word-drop 4 0 xs ys (omega arith))
      (get_word-drop 4 4 xs ys (omega arith)) (get_word-drop 4 8 xs ys (omega arith))
      (get_word-drop 4 12 xs ys (omega arith)) (get_word-drop 4 16 xs ys (omega arith))
      (ap signed32 (get_word-drop 4 20 xs ys (omega arith)))
      (get_word-drop 2 24 xs ys (omega arith))

-- A part of a package is not one yet.
unmarshal_part :
    (bs : Bytes) (h : Header)
    → (32 ≤ length bs → get_header bs ≡ h)
    → h.magic ≡ echo_pkg_magic
    → length bs < h.len + 32
    → (unmarshal bs).2 ≡ some not_enough_stream
unfolding unmarshal
unmarshal_part bs h a m l = elim (Bool-cases (ltb (length bs) 32)) [
  | inl s ↦ ground (arith, s)
  | inr s ↦ ground (arith, s, a (ground (arith, s)), m, l, length-drop 32 bs)
]

read_part :
    (q : Package) (buf more : Bytes)
    → IsPackage q
    → buf ++ more ≡ marshal q
    → 0 < length more
    → read buf ≡ (none, 0, none)
unfolding read
read_part q buf more v h l =
    let part =
      unmarshal_part buf q.head
        (λ k. get_header-append buf more k ∙ ap get_header h ∙ get_header-marshal q v) v.magic
        (omega (arith, v.len, length-append buf more, ap length h, length-marshal q)) in
    ground (arith, part)

-- The stream that a sender of the packages writes.
abbrev pub stream : List Package → Bytes
stream [] = []
stream (p ∷ ps) = marshal p ++ stream ps

-- What stays buffered in front of the packages to come: nothing where there are none, and else a part of
-- the next one, never the whole.
abbrev pub Partial : List Package → Bytes → Type 0
Partial [] buf = buf ≡ []
Partial (q ∷ qs) buf = (more : Bytes) × (buf ++ more ≡ marshal q) × (0 < length more)

-- No limit, or one that takes the longest package.
abbrev pub Allowed : ℕ → Type 0
Allowed max = (max ≡ 0) ⊎ (288 ≤ max)

-- How a decoding of bytes of the stream ends: with the packages that are complete, and no error.
abbrev pub Decoding : ℕ → ℕ → List Package → Bytes → Type 0
Decoding f max ps buf =
    (done : List Package) × (left : List Package) × (rest : Bytes) × (ps ≡ done ++ left)
    × (decode_batch read f max buf ≡ some (rest, done, none))
    × (buf ≡ stream done ++ rest)
    × Partial left rest

limit_error-marshal :
    (max : ℕ) (q : Package) (buf : Bytes)
    → IsPackage q
    → Allowed max
    → limit_error read max buf (some q, length (marshal q), none) ≡ none
unfolding limit_error
limit_error-marshal max q buf v a = ground (arith, v.short, length-marshal q, a)

limit_error_part :
    (max : ℕ) (q : Package) (buf : Bytes)
    → IsPackage q
    → Allowed max
    → length buf < length (marshal q)
    → limit_error read max buf (none, 0, none) ≡ none
unfolding limit_error
limit_error_part max q buf v a l = ground (arith, v.short, length-marshal q, a, l)

decode_part :
    (f max : ℕ) (q : Package) (buf more : Bytes)
    → IsPackage q
    → Allowed max
    → length buf < f
    → buf ++ more ≡ marshal q
    → 0 < length more
    → decode_batch read f max buf ≡ some (buf, [], none)
unfolding decode_batch
decode_part f max q [] more v a lt h l = refl
decode_part zero max q (b ∷ buf) more v a lt h l = absurd (omega arith)
decode_part (suc f) max q (b ∷ buf) more v a lt h l =
    let part = read_part q (b ∷ buf) more v h l in
    let short : length (b ∷ buf) < length (marshal q) =
      omega (arith, length-append (b ∷ buf) more, ap length h) in
    decode_stalled read max f b buf (rw part (limit_error_part max q (b ∷ buf) v a short))
      (ap (λ (r : Decoded Package). r.0) part)

decode_one :
    (f max n : ℕ) (q : Package) (buf : Bytes)
    → read buf ≡ (some q, n, none)
    → limit_error read max buf (some q, n, none) ≡ none
    → 0 < length buf
    → decode_batch read (suc f) max buf
      ≡ with_front read max q (decode_batch read f max (drop n buf))
decode_one f max n q [] r l h = absurd (omega arith)
decode_one f max n q (b ∷ buf) r l h =
    decode_cut read max f b buf q (rw r l) (ap (λ (d : Decoded Package). d.0) r)
    ∙ ap
        (λ (d : Decoded Package).
          with_front read max q (decode_batch read f max (drop d.1 (b ∷ buf))))
        r

decode_front :
    (f max : ℕ) (q : Package) (buf : Bytes)
    → IsPackage q
    → Allowed max
    → decode_batch read (suc f) max (marshal q ++ buf)
      ≡ with_front read max q (decode_batch read f max buf)
decode_front f max q buf v a =
    decode_one f max (length (marshal q)) q (marshal q ++ buf) (read-marshal q buf v)
      (limit_error-marshal max q (marshal q ++ buf) v a)
      (omega (arith, length-append (marshal q) buf, length-marshal q))
    ∙ ap (λ t. with_front read max q (decode_batch read f max t)) (drop-append (marshal q) buf)

-- Two ways to cut one list: the first part of the one is in the first part of the other, or the other way round.
split-append {ℓ} :
    {A : Type ℓ} (xs bs cs ds : List A)
    → xs ++ bs ≡ cs ++ ds
    → ((es : List A) × (xs ≡ cs ++ es) × (es ++ bs ≡ ds))
      ⊎ ((es : List A) × (xs ++ es ≡ cs) × (0 < length es))
split-append xs bs [] ds h = inl (xs, refl, h)
split-append [] bs (c ∷ cs) ds h = inr (c ∷ cs, refl, omega arith)
split-append (a ∷ xs) bs (c ∷ cs) ds h = elim (split-append xs bs cs ds (ground (arith, h))) [
  | inl (es, e, g) ↦ inl (es, ground (arith, h, e), g)
  | inr (es, e, g) ↦ inr (es, ground (arith, h, e), g)
]

-- Bytes that continue to a stream of packages decode to those that are complete in them.
pub decode_stream :
    (f max : ℕ) (ps : List Package) (buf more : Bytes)
    → All IsPackage ps
    → Allowed max
    → length buf < f
    → buf ++ more ≡ stream ps
    → Decoding f max ps buf
unfolding decode_batch
decode_stream f max [] [] more v a lt h = ([], [], [], refl, refl, refl, refl)
decode_stream f max [] (b ∷ buf) more v a lt h = absurd (cc h)
decode_stream zero max (q ∷ ps) buf more v a lt h = absurd (omega arith)
decode_stream (suc f) max (q ∷ ps) buf more v a lt h =
    elim (split-append buf more (marshal q) (stream ps) h) [
      | inl (es, e, g) ↦
          let shorter : length es < f =
            omega (arith, ap length e, length-append (marshal q) es, length-marshal q) in
          let (done, left, rest, cut, run, whole, part) =
            decode_stream f max ps es more v.1 a shorter g in
          (
            q ∷ done,
            left,
            rest,
            ap (◌∷◌ q) cut,
            ap (decode_batch read (suc f) max) e
                ∙ decode_front f max q es v.0 a
                ∙ ap (with_front read max q) run,
            e ∙ ap (λ t. marshal q ++ t) whole ∙ sym (append_assoc (marshal q) (stream done) rest),
            part,
          )
      | inr (es, e, g) ↦
          ([], q ∷ ps, buf, refl, decode_part (suc f) max q buf es v.0 a lt e g, refl, (es, e, g))
    ]
