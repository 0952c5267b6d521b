-- ===== src/Echo.antt =====
-- examples/echo of the repository: the protocol of its clients and servers, in echo.go and readwriter.go.
pub mod RoundTrip
pub mod Batches
pub mod Streams
pub mod Peers
pub mod Server
pub mod Client
pub mod Datagrams
use getty.Common.{
  ℕ, zero, suc, ◌+◌, ◌-◌, ◌*◌, ◌/◌, ◌%◌, ◌^◌, ◌≤◌, ◌<◌, ◌≡◌, ℤ, pos, negsuc, Bool, true, false, not,
  Option, none, some, List, [], ◌∷◌, ◌++◌, ltb, ◌==◌, if◌then◌else◌, length, take, drop, u8, u16,
}
use getty.Errors.{Error, user, illegal_pkg}
use getty.Connection.Net.{Bytes}
use getty.Session.Receive.{Decoded, Reader}

-- `EchoPkgHeader`: words of 32 bits, `Len` of 16, and `Code`, which is an `int32`. The two fields without a
-- name are written as 0 and skipped.
pub record Header : Type 0 where
  pub magic : ℕ
  pub log_id : ℕ
  pub sequence : ℕ
  pub service_id : ℕ
  pub command : ℕ
  pub code : ℤ
  pub len : ℕ

pub record Package : Type 0 where
  pub head : Header
  pub body : Bytes

abbrev pub echo_pkg_magic : ℕ
echo_pkg_magic = 0x2016_0905

abbrev pub max_echo_string_len : ℕ
max_echo_string_len = 255

abbrev pub echo_pkg_header_len : ℕ
echo_pkg_header_len = 32

-- A word in the given number of bytes, lowest byte first, as `binary.LittleEndian` has it.
unfoldable pub put_word : ℕ → ℕ → Bytes
put_word zero w = []
put_word (suc n) w = w % 256 ∷ put_word n (w / 256)

unfoldable pub get_word : ℕ → Bytes → ℕ
get_word zero bs = 0
get_word (suc n) [] = 0
get_word (suc n) (b ∷ bs) = b + 256 * get_word n bs

-- The bits of an `int32`, and the number that bits stand for.
abbrev pub int32_bits : ℤ → ℕ
int32_bits (pos n) = n % 2 ^ 32
int32_bits (negsuc n) = 2 ^ 32 - 1 - n % 2 ^ 32

abbrev pub signed32 : ℕ → ℤ
signed32 w = if ltb w (2 ^ 31) then pos w else negsuc (2 ^ 32 - 1 - w)

-- `Marshal`: the header by `binary.Write`, one byte with the length of the string, and the string.
unfoldable pub marshal : Package → Bytes
unfolding put_word
marshal p =
    put_word 4 p.head.magic
    ++ (put_word 4 p.head.log_id
        ++ (put_word 4 p.head.sequence
            ++ (put_word 4 p.head.service_id
                ++ (put_word 4 p.head.command
                    ++ (put_word 4 (int32_bits p.head.code)
                        ++ (put_word 2 p.head.len
                            ++ (put_word 6 0 ++ (u8 (length p.body) ∷ p.body))))))))

-- The header by `binary.Read`, from a buffer that holds one.
unfoldable pub get_header : Bytes → Header
unfolding get_word
get_header bs = record {
  magic = get_word 4 bs;
  log_id = get_word 4 (drop 4 bs);
  sequence = get_word 4 (drop 8 bs);
  service_id = get_word 4 (drop 12 bs);
  command = get_word 4 (drop 16 bs);
  code = signed32 (get_word 4 (drop 20 bs));
  len = get_word 2 (drop 24 bs);
}

-- `ErrNotEnoughStream`, `ErrTooLargePackage` and `ErrIllegalMagic`.
pub data EchoError : Type 0 where
  not_enough_stream : EchoError
  too_large_package : EchoError
  illegal_magic : EchoError

-- `Unmarshal` behind the header: the package that it filled in, the length, and an error. Where there is no
-- byte for the length of the string, it returns no error and 0.
unfoldable pub unmarshal_body : Header → Bytes → Package × ℕ × Option EchoError
unmarshal_body h [] = (record { head = h; body = [] }, 0, none)
unmarshal_body h (n ∷ rest) =
    (record { head = h; body = take n rest }, h.len + echo_pkg_header_len, none)

-- `Unmarshal`; `H.Len - 1` wraps around.
unfoldable pub unmarshal : Bytes → Package × ℕ × Option EchoError
unfolding get_header unmarshal_body
unmarshal bs =
    let h = get_header bs in
    let rest = drop echo_pkg_header_len bs in
    let blank : Header = record {
      magic = 0;
      log_id = 0;
      sequence = 0;
      service_id = 0;
      command = 0;
      code = pos 0;
      len = 0;
    } in
    if ltb (length bs) echo_pkg_header_len
    then (record { head = blank; body = [] }, 0, some not_enough_stream)
    else if not (h.magic == echo_pkg_magic)
    then (record { head = h; body = [] }, 0, some illegal_magic)
    else if ltb (length rest) h.len
    then (record { head = h; body = [] }, 0, some not_enough_stream)
    else if ltb max_echo_string_len (u16 (h.len + 65535))
    then (record { head = h; body = [] }, 0, some too_large_package)
    else unmarshal_body h rest

-- The errors of this package, as those of an application.
abbrev pub error_of : EchoError → Error
error_of not_enough_stream = user 0
error_of too_large_package = user 1
error_of illegal_magic = user 2

-- `Read` of `EchoPackageHandler`: too few bytes are no package yet, and no error.
unfoldable pub read : Reader Package
unfolding unmarshal
read bs =
    let (p, n, e) = unmarshal bs in
    elim e [
      | none ↦ (some p, n, none)
      | some not_enough_stream ↦ (none, 0, none)
      | some err ↦ (none, 0, some (error_of err))
    ]

-- `Write` of `EchoPackageHandler`; `none` is a package of another type.
unfoldable pub write : Option Package → Bytes × Option Error
unfolding marshal
write none = ([], some (user 3))
write (some p) = (marshal p, none)
