-- ===== src/Constants.antt =====
-- transport/const.go: the kinds of end point and their names, and the compression types.
use Prim.Native.String.{String}
use text.Mathlib.Text.{◌==◌ as str_eq}
use getty.Common.{
  ℕ, Option, none, some, List, [], ◌∷◌, ◌==◌, if◌then◌else◌, ℤ, pos, negsuc, Bool, true, false,
}

-- An `EndPointType` is an `int32`, and these are its constants; no constant is negative.
abbrev pub EndPointType : Type 0
EndPointType = ℕ

abbrev pub udp_endpoint : EndPointType
udp_endpoint = 0

abbrev pub udp_client : EndPointType
udp_client = 1

abbrev pub tcp_client : EndPointType
tcp_client = 2

abbrev pub ws_client : EndPointType
ws_client = 3

abbrev pub wss_client : EndPointType
wss_client = 4

abbrev pub tcp_server : EndPointType
tcp_server = 7

abbrev pub ws_server : EndPointType
ws_server = 8

abbrev pub wss_server : EndPointType
wss_server = 9

-- The maps `EndPointType_name` and `EndPointType_value`.
unfoldable pub end_point_type_name : List (ℕ × String)
end_point_type_name =
    (0, "UDP_ENDPOINT")
    ∷ (1, "UDP_CLIENT")
    ∷ (2, "TCP_CLIENT")
    ∷ (3, "WS_CLIENT")
    ∷ (4, "WSS_CLIENT")
    ∷ (7, "TCP_SERVER")
    ∷ (8, "WS_SERVER")
    ∷ (9, "WSS_SERVER")
    ∷ []

unfoldable pub end_point_type_value : List (String × ℕ)
end_point_type_value =
    ("UDP_ENDPOINT", 0)
    ∷ ("UDP_CLIENT", 1)
    ∷ ("TCP_CLIENT", 2)
    ∷ ("WS_CLIENT", 3)
    ∷ ("WSS_CLIENT", 4)
    ∷ ("TCP_SERVER", 7)
    ∷ ("WS_SERVER", 8)
    ∷ ("WSS_SERVER", 9)
    ∷ []

unfoldable pub name_of : ℕ → List (ℕ × String) → Option String
name_of t [] = none
name_of t ((u, s) ∷ m) = if u == t then some s else name_of t m

unfoldable pub value_of : String → List (String × ℕ) → Option ℕ
value_of s [] = none
value_of s ((r, t) ∷ m) = if str_eq r s then some t else value_of s m

-- `EndPointType.String`; `itoa` is `strconv.Itoa`.
unfoldable pub string : (ℕ → String) → EndPointType → String
unfolding name_of end_point_type_name
string itoa t = elim (name_of t end_point_type_name) [ none ↦ itoa t | some s ↦ s ]

-- The values of `CompressType` that `SetCompressType` takes for flate; 10 is `CompressSnappy`.
abbrev pub is_flate_type : ℤ → Bool
is_flate_type (pos n) = if n == 0 then true else if n == 1 then true else n == 9
is_flate_type (negsuc n) = if n == 0 then true else n == 1

abbrev pub is_snappy_type : ℤ → Bool
is_snappy_type (pos n) = n == 10
is_snappy_type (negsuc n) = false
