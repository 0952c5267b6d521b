-- ===== src/Echo/Peers.antt =====
-- `Unmarshal` on bytes that no echo program sent.
use getty.Common.{
  ℕ, zero, suc, ◌+◌, ◌≤◌, ◌<◌, ◌≡◌, refl, sym, ap, subst, ◌∙◌, pos, none, some, [], ◌∷◌, ◌++◌,
  length, take, drop, length-take, length-drop, All, u16, ◌^◌, arith,
}
use getty.Connection.Net.{Bytes}
use getty.Session.Receive.{Batch, decode_batch}
use getty.Session.Receive.Stream.{IsFraming, decode_batch_total}
use getty.Echo.{
  Header, Package, echo_pkg_magic, marshal, get_word, get_header, unmarshal_body, unmarshal, read,
}

abbrev pub IsByte : ℕ → Type 0
IsByte b = b < 256

All-drop : (n : ℕ) (bs : Bytes) → All IsByte bs → All IsByte (drop n bs)
All-drop zero bs h = h
All-drop (suc n) [] h = h
All-drop (suc n) (b ∷ bs) h = All-drop n bs h.1

-- The string is cut from behind its length byte, and the length is one of a legal package in the buffer.
abbrev Accepted : Bytes → Package → ℕ → Type 0
Accepted bs p n =
    (b : ℕ) × (rest : Bytes) × (drop 32 bs ≡ b ∷ rest)
    × (p.body ≡ take b rest)
    × (33 ≤ n)
    × (n ≡ get_word 2 (drop 24 bs) + 32)
    × (u16 (get_word 2 (drop 24 bs) + 65535) ≤ 255)
    × (n ≤ length bs)

unmarshal_accepted :
    (bs : Bytes) (p : Package) (n : ℕ) (t : Bytes)
    → drop 32 bs ≡ t
    → unmarshal bs ≡ (p, n, none)
    → Accepted bs p n
unfolding unmarshal unmarshal_body get_header
unmarshal_accepted bs p n [] e h = absurd (ground (arith, h, e, length-drop 32 bs))
unmarshal_accepted bs p n (b ∷ rest) e h =
    let cut = length-drop 32 bs in
    (
      b,
      rest,
      e,
      ground (arith, h, e),
      ground (arith, h, e, cut),
      ground (arith, h, e, cut),
      ground (arith, h, e, cut),
      ground (arith, h, e, cut),
    )

get_word_lt : (n : ℕ) (bs : Bytes) → All IsByte bs → get_word n bs < 256 ^ n
unfolding get_word
get_word_lt zero bs v = omega arith
get_word_lt (suc n) [] v = grind (arith, get_word_lt n [] v)
get_word_lt (suc n) (b ∷ bs) v = grind (arith, get_word_lt n bs v.1, v.0)

read_accepted :
    (bs : Bytes) (p : Package) (n : ℕ) → read bs ≡ (some p, n, none) → unmarshal bs ≡ (p, n, none)
unfolding read
read_accepted bs p n h = ground (arith, h)

-- Whatever a peer sends: a package that `Read` accepts takes at least 33 bytes, at most 288, and no more
-- than there are, and its string is no longer than 255.
pub read-bounds :
    (bs : Bytes) (p : Package) (n : ℕ)
    → All IsByte bs
    → read bs ≡ (some p, n, none)
    → (33 ≤ n) × (n ≤ 288) × (n ≤ length bs) × (length p.body ≤ 255)
read-bounds bs p n v h =
    let (b, rest, e, body, low, eq, legal, there) =
      unmarshal_accepted bs p n (drop 32 bs) refl (read_accepted bs p n h) in
    let byte : b < 256 = (subst (All IsByte) e (All-drop 32 bs v)).0 in
    let small = get_word_lt 2 (drop 24 bs) (All-drop 24 bs v) in
    (
      low,
      omega (arith, eq, legal, small),
      there,
      omega (arith, ap length body, length-take b rest, byte),
    )

-- Whatever a peer sends, the inner loop of `handleTCPPackage` ends on it.
pub decode_batch-echo :
    (max : ℕ) (bs : Bytes) → (r : Batch Package) × (decode_batch read (length bs) max bs ≡ some r)
decode_batch-echo max bs = decode_batch_total read progress max (length bs) bs (omega arith)
  where
    progress : (buf : Bytes) (p : Package) (n : ℕ) → read buf ≡ (some p, n, none) → 0 < n
    progress buf p n h =
        let (b, rest, e, body, low, eq, legal, there) =
          unmarshal_accepted buf p n (drop 32 buf) refl (read_accepted buf p n h) in
        omega (arith, low)

-- A package whose `Len` counts its length byte only, although a string of one byte follows.
abbrev short_head : Header
short_head = record {
  magic = echo_pkg_magic;
  log_id = 0;
  sequence = 0;
  service_id = 0;
  command = 1;
  code = pos 0;
  len = 1;
}

abbrev short_package : Package
short_package = record { head = short_head; body = 65 ∷ [] }

-- The first 33 bytes of it are a package by themselves, with no string.
read_short :
    read (take 33 (marshal short_package))
    ≡ (some (record { head = short_head; body = [] }), 33, none)
unfolding read marshal
read_short = refl

read_short_more : read (take 33 (marshal short_package) ++ 65 ∷ []) ≡ (some short_package, 33, none)
unfolding read marshal
read_short_more = refl

-- The length byte is not held against `Len`, so the protocol is no framing: there are bytes that decode to
-- one package by themselves, and to another one of the same length where more bytes stand behind them. The
-- string then reads from the next package.
pub read-IsFraming-fails : ¬ IsFraming read
read-IsFraming-fails w =
    let again =
      w.stable (take 33 (marshal short_package)) (65 ∷ []) (record { head = short_head; body = [] })
        33 read_short in
    absurd (ground (arith, sym again ∙ read_short_more))
