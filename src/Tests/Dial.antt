-- ===== src/Tests/Dial.antt =====
-- Attempts to connect, and the TLS configurations.
use Prim.Native.String.{String}
use text.Mathlib.Text.{◌==◌ as str_eq}
use getty.Common.{ℕ, ◌≡◌, refl, true, false, Option, none, some, [], ◌∷◌, if◌then◌else◌}
use getty.Errors.{timeout}
use getty.Constants.{tcp_client}
use getty.Options.{ClientOptions, no_client_options}
use getty.Connection.Net.{Bytes}
use getty.Tls.{Store, build_server, build_client, build_wss_client, build_wss_server}
use getty.Tls.Trust.{Good, VerifiesClient, VerifiesServer, build-Good}
use getty.Client.Dial.{Outside, dial}
use getty.Client.Dial.Sockets.{Safe, wants_tls, wanted, dial-Safe}

-- One file with certificates, one with none, and no other.
abbrev files : String → Option Bytes
files path =
    if str_eq path "ca.pem" then some (1 ∷ []) else if str_eq path "bad.pem" then some [] else none

abbrev parse : Bytes → Option ℕ
parse [] = none
parse (b ∷ bs) = some 5

abbrev store : Store
store = record {
  load_x509_key_pair = λ cert key. some 3;
  read_file = files;
  append_certs_from_pem = parse;
}

-- Nothing is parsed from the second file.
bad_trust : (build_client store "cert.pem" "key.pem" "bad.pem").0 ≡ none
unfolding build_client
bad_trust = refl

build-Good_example :
    Good (VerifiesClient store "ca.pem") (build_server store "cert.pem" "key.pem" "ca.pem")
    × Good (VerifiesClient store "ca.pem") (build_wss_server store "cert.pem" "key.pem" "ca.pem")
    × Good (VerifiesServer store "ca.pem") (build_client store "cert.pem" "key.pem" "ca.pem")
    × Good (VerifiesServer store "ca.pem") (build_wss_client store "ca.pem")
build-Good_example = build-Good store "cert.pem" "key.pem" "ca.pem" refl

-- A network where a TLS handshake ends at the socket itself, and a builder that gives nothing.
abbrev looped : Outside
looped = record {
  tcp = none;
  tls = λ c. none;
  resolve = none;
  udp = none;
  ping = none;
  pong = some timeout;
  ws = λ c. none;
  same_addr = true;
  build = (none, none);
}

abbrev secure : ClientOptions
secure = record no_client_options { addr = "127.0.0.1:1000"; ssl_enabled = true }

no_builder : (dial looped store tcp_client false secure).opened ≡ 0
unfolding dial
no_builder = refl

abbrev built : Outside
built = record looped { build = build_client store "cert.pem" "key.pem" "ca.pem" }

dropped_loop : (dial built store tcp_client false secure).closed ≡ 1
unfolding dial build_client
dropped_loop = refl

dial-Safe_example :
    Safe false
      (wants_tls tcp_client secure)
      (wanted built store tcp_client secure)
      (dial built store tcp_client false secure)
dial-Safe_example = dial-Safe built store tcp_client false secure
