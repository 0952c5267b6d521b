-- ===== src/Echo/RoundTrip.antt =====
-- `Unmarshal` behind `Marshal`, for the packages that the echo programs send.
use getty.Common.{
  ℕ, zero, suc, ◌+◌, ◌/◌, ◌^◌, ◌≤◌, ◌<◌, ◌≡◌, refl, ap, ◌∙◌, ℤ, pos, negsuc, none, ◌∷◌, ◌++◌,
  length, take, drop, u8, append_assoc, length-append, length-drop, take-append, arith,
}
use native.Mathlib.Nat.{div-add-mod, suc-add}
use getty.Connection.Net.{Bytes}
use getty.Echo.{
  Header, Package, echo_pkg_magic, echo_pkg_header_len, max_echo_string_len, put_word, get_word,
  int32_bits, signed32, marshal, get_header, unmarshal_body, unmarshal,
}

get_word-put_word : (n w : ℕ) (rest : Bytes) → w < 256 ^ n → get_word n (put_word n w ++ rest) ≡ w
unfolding get_word put_word
get_word-put_word zero w rest h = grind arith
get_word-put_word (suc n) w rest h =
    grind (arith, get_word-put_word n (w / 256) rest, div-add-mod w 256)

drop-put_word : (n k w : ℕ) (rest : Bytes) → drop (n + k) (put_word n w ++ rest) ≡ drop k rest
unfolding put_word
drop-put_word zero k w rest = ap (λ j. drop j rest) (omega arith)
drop-put_word (suc n) k w rest = rw suc-add (drop-put_word n k (w / 256) rest)

length-put_word : (n w : ℕ) → length (put_word n w) ≡ n
unfolding put_word
length-put_word zero w = refl
length-put_word (suc n) w = ap suc (length-put_word n (w / 256))

-- An `int32`.
abbrev pub IsInt32 : ℤ → Type 0
IsInt32 (pos n) = n < 2 ^ 31
IsInt32 (negsuc n) = n < 2 ^ 31

signed32-int32_bits : (c : ℤ) → IsInt32 c → signed32 (int32_bits c) ≡ c
signed32-int32_bits (pos n) h = ground arith
signed32-int32_bits (negsuc n) h = ground arith

-- A header whose fields are words of their sizes.
pub record IsHeader (h : Header) : Type 0 where
  pub magic : h.magic < 2 ^ 32
  pub log_id : h.log_id < 2 ^ 32
  pub sequence : h.sequence < 2 ^ 32
  pub service_id : h.service_id < 2 ^ 32
  pub command : h.command < 2 ^ 32
  pub code : IsInt32 h.code
  pub len : h.len < 2 ^ 16

-- What the programs send: the magic number, and a string that its length byte can count, with `Len` one more.
pub record IsPackage (p : Package) : Type 0 where
  pub header : IsHeader p.head
  pub magic : p.head.magic ≡ echo_pkg_magic
  pub short : length p.body ≤ max_echo_string_len
  pub len : p.head.len ≡ length p.body + 1

-- `Marshal` in front of more bytes.
abbrev pub packed : Header → Bytes → Bytes
packed h tail =
    put_word 4 h.magic
    ++ (put_word 4 h.log_id
        ++ (put_word 4 h.sequence
            ++ (put_word 4 h.service_id
                ++ (put_word 4 h.command
                    ++ (put_word 4 (int32_bits h.code)
                        ++ (put_word 2 h.len ++ (put_word 6 0 ++ tail)))))))

pub marshal-packed :
    (p : Package) (rest : Bytes)
    → marshal p ++ rest ≡ packed p.head (u8 (length p.body) ∷ p.body ++ rest)
unfolding marshal
marshal-packed p rest = simp append_assoc refl

drop-packed : (h : Header) (tail : Bytes) → drop echo_pkg_header_len (packed h tail) ≡ tail
unfolding put_word
drop-packed h tail = refl

-- A header is what its words are.
pub get_header-words :
    (bs : Bytes) (h : Header)
    → get_word 4 bs ≡ h.magic
    → get_word 4 (drop 4 bs) ≡ h.log_id
    → get_word 4 (drop 8 bs) ≡ h.sequence
    → get_word 4 (drop 12 bs) ≡ h.service_id
    → get_word 4 (drop 16 bs) ≡ h.command
    → signed32 (get_word 4 (drop 20 bs)) ≡ h.code
    → get_word 2 (drop 24 bs) ≡ h.len
    → get_header bs ≡ h
unfolding get_header
get_header-words bs h a b c d e f g = rw (a, b, c, d, e, f, g) refl

int32_bits_lt : (c : ℤ) → int32_bits c < 256 ^ 4
int32_bits_lt (pos n) = omega arith
int32_bits_lt (negsuc n) = omega arith

get_header-packed : (h : Header) (tail : Bytes) → IsHeader h → get_header (packed h tail) ≡ h
unfolding put_word
get_header-packed h tail v =
    get_header-words (packed h tail) h (get_word-put_word 4 h.magic _ v.magic)
      (get_word-put_word 4 h.log_id _ v.log_id) (get_word-put_word 4 h.sequence _ v.sequence)
      (get_word-put_word 4 h.service_id _ v.service_id) (get_word-put_word 4 h.command _ v.command)
      (ap signed32 (get_word-put_word 4 (int32_bits h.code) _ (int32_bits_lt h.code))
        ∙ signed32-int32_bits h.code v.code)
      (get_word-put_word 2 h.len _ v.len)

length-packed : (h : Header) (tail : Bytes) → length (packed h tail) ≡ 32 + length tail
unfolding put_word
length-packed h tail = omega arith

-- `Unmarshal` of a header with the magic number and a legal length, in front of enough bytes.
unmarshal_accepts :
    (bs : Bytes) (h : Header) (n : ℕ) (rest : Bytes)
    → get_header bs ≡ h
    → drop echo_pkg_header_len bs ≡ n ∷ rest
    → h.magic ≡ echo_pkg_magic
    → 0 < h.len
    → h.len ≤ 256
    → h.len ≤ suc (length rest)
    → unmarshal bs ≡ (record { head = h; body = take n rest }, h.len + echo_pkg_header_len, none)
unfolding unmarshal unmarshal_body
unmarshal_accepts bs h n rest a d m p q l = ground (arith, a, d, m, p, q, l, length-drop 32 bs)

pub length-marshal : (p : Package) → length (marshal p) ≡ 33 + length p.body
unfolding marshal put_word
length-marshal p = omega arith

-- `Unmarshal` gives back the package that was marshalled, and its length, whatever bytes follow.
pub unmarshal-marshal :
    (p : Package) (rest : Bytes)
    → IsPackage p
    → unmarshal (marshal p ++ rest) ≡ (p, length (marshal p), none)
unmarshal-marshal p rest v =
    let n = u8 (length p.body) in
    let tail = n ∷ p.body ++ rest in
    let accepted =
      unmarshal_accepts (packed p.head tail) p.head n (p.body ++ rest)
        (get_header-packed p.head tail v.header) (drop-packed p.head tail) v.magic
        (omega (arith, v.len)) (omega (arith, v.len, v.short))
        (omega (arith, v.len, length-append p.body rest)) in
    let counted : n ≡ length p.body = omega (arith, v.short) in
    rw (marshal-packed p rest, accepted, counted, take-append p.body rest)
      (ground (arith, v.len, length-marshal p))

pub get_header-marshal : (p : Package) → IsPackage p → get_header (marshal p) ≡ p.head
unfolding marshal
get_header-marshal p v = get_header-packed p.head (u8 (length p.body) ∷ p.body) v.header
