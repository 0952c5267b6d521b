-- ===== src/Tls.antt =====
-- transport/tls.go, and the TLS configurations of the WebSocket client and server (client.go, server.go).
pub mod Trust
use Prim.Native.String.{String}
use text.Mathlib.Text.{◌==◌ as str_eq}
use getty.Common.{ℕ, Bool, true, false, Option, none, some, List, [], ◌∷◌, if◌then◌else◌}
use getty.Connection.Net.{Bytes}

-- What the code calls of crypto/tls, crypto/x509 and os: the pair of a certificate and its key, the bytes of a
-- file, and the pool of the certificates in them, which is none where they hold none. Certificates and pools
-- are references.
pub record Store : Type 0 where
  pub load_x509_key_pair : String → String → Option ℕ
  pub read_file : String → Option Bytes
  pub append_certs_from_pem : Bytes → Option ℕ

-- `tls.ClientAuthType`, as far as the code names it; the first is its zero value.
pub data ClientAuth : Type 0 where
  no_client_cert : ClientAuth
  require_any_client_cert : ClientAuth
  require_and_verify_client_cert : ClientAuth

-- `tls.Config`: the fields that the code sets. `tls12` says that `MinVersion` is `VersionTLS12`; without it
-- the package decides.
pub record Config : Type 0 where
  pub insecure_skip_verify : Bool
  pub client_auth : ClientAuth
  pub certificates : List ℕ
  pub tls12 : Bool
  pub root_cas : Option ℕ
  pub client_cas : Option ℕ

abbrev pub init_config : Config
init_config = record {
  insecure_skip_verify = false;
  client_auth = no_client_cert;
  certificates = [];
  tls12 = false;
  root_cas = none;
  client_cas = none;
}

pub data TlsError : Type 0 where
  bad_key_pair : TlsError
  unreadable_file : TlsError
  no_certificate : TlsError

-- A configuration or nil, and an error or nil.
abbrev pub Built : Type 0
Built = Option Config × Option TlsError

-- The pool of a file of certificates, or the error that the builders return.
unfoldable pub trust_pool : Store → String → Option ℕ × Option TlsError
trust_pool st path = elim (st.read_file path) [
  | none ↦ (none, some unreadable_file)
  | some pem ↦ elim (st.append_certs_from_pem pem) [
    | none ↦ (none, some no_certificate)
    | some pool ↦ (some pool, none)
  ]
]

-- What a server does with its trust collection, in `ServerTlsConfigBuilder` and in `runWSSEventLoop`.
unfoldable pub with_trust : Store → String → Config → Built
unfolding trust_pool
with_trust st path c =
    if str_eq path ""
    then (some c, none)
    else (let (found, e) = trust_pool st path in
        elim found [
          | none ↦ (none, e)
          | some pool ↦ (
            some (record c {
              client_cas = some pool;
              client_auth = require_and_verify_client_cert;
              insecure_skip_verify = false;
            }),
            none,
          )
        ])

-- `BuildTlsConfig` of `ServerTlsConfigBuilder`.
unfoldable pub build_server : Store → String → String → String → Built
unfolding with_trust
build_server st cert key trust = elim (st.load_x509_key_pair cert key) [
  | none ↦ (none, some bad_key_pair)
  | some pair ↦ with_trust st trust (record init_config {
    insecure_skip_verify = true;
    client_auth = require_any_client_cert;
    certificates = pair ∷ [];
    tls12 = true;
  })
]

-- `BuildTlsConfig` of `ClientTlsConfigBuilder`.
unfoldable pub build_client : Store → String → String → String → Built
unfolding trust_pool
build_client st cert key trust = elim (st.load_x509_key_pair cert key) [
  | none ↦ (none, some bad_key_pair)
  | some pair ↦
      let (found, e) = trust_pool st trust in
      elim found [
        | none ↦ (none, e)
        | some pool ↦ (
          some
              (record init_config { tls12 = true; root_cas = some pool; certificates = pair ∷ [] }),
          none,
        )
      ]
]

-- `buildWSSClientTLSConfig`: without a file the roots are those of the system.
unfoldable pub build_wss_client : Store → String → Built
unfolding trust_pool
build_wss_client st cert =
    if str_eq cert ""
    then (some (record init_config { tls12 = true }), none)
    else (let (found, e) = trust_pool st cert in
        elim found [
          | none ↦ (none, e)
          | some pool ↦ (some (record init_config { tls12 = true; root_cas = some pool }), none)
        ])

-- The configuration of `runWSSEventLoop`; an error is a panic there.
unfoldable pub build_wss_server : Store → String → String → String → Built
unfolding with_trust
build_wss_server st cert key trust = elim (st.load_x509_key_pair cert key) [
  | none ↦ (none, some bad_key_pair)
  | some pair ↦ with_trust st trust (record init_config {
    insecure_skip_verify = true;
    client_auth = no_client_cert;
    certificates = pair ∷ [];
  })
]
