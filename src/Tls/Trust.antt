-- ===== src/Tls/Trust.antt =====
-- What the TLS configurations verify.
use Prim.Native.String.{String}
use text.Mathlib.Text.{◌==◌ as str_eq}
use getty.Common.{
  ℕ, ◌≡◌, ◌⊎◌, refl, sym, subst, inl, inr, true, false, Option, none, some, [], ◌∷◌, Option-cases,
  is_some, arith,
}
use getty.Tls.{
  Store, require_and_verify_client_cert, require_any_client_cert, no_client_cert, bad_key_pair,
  unreadable_file, no_certificate, Config, init_config, TlsError, Built, trust_pool, with_trust,
  build_server, build_client, build_wss_client, build_wss_server,
}

-- A server that was given a trust collection: the certificate of a client is asked for and held against the
-- certificates of the file.
pub record VerifiesClient (st : Store) (path : String) (c : Config) : Type 0 where
  pub auth : c.client_auth ≡ require_and_verify_client_cert
  pub pool : c.client_cas ≡ (trust_pool st path).0
  pub known : is_some c.client_cas ≡ true

-- A client: the certificate of the server is not passed over, and is held against those of the file.
pub record VerifiesServer (st : Store) (path : String) (c : Config) : Type 0 where
  pub checked : c.insecure_skip_verify ≡ false
  pub pool : c.root_cas ≡ (trust_pool st path).0
  pub known : is_some c.root_cas ≡ true
  pub modern : c.tls12 ≡ true

-- Either a configuration with the property, or an error; never both, and never neither.
abbrev pub Good : (Config → Type 0) → Built → Type 0
Good P (some d, none) = P d
Good P (none, some e) = Unit {0}
Good P (some d, some e) = ⊥
Good P (none, none) = ⊥

trust_pool-cases :
    (st : Store) (path : String)
    → ((pool : ℕ) × (trust_pool st path ≡ (some pool, none)))
      ⊎ ((e : TlsError) × (trust_pool st path ≡ (none, some e)))
unfolding trust_pool
trust_pool-cases st path = elim (Option-cases (st.read_file path)) [
  | inl e ↦ inr (unreadable_file, ground (arith, e))
  | inr (pem, e) ↦ elim (Option-cases (st.append_certs_from_pem pem)) [
    | inl n ↦ inr (no_certificate, ground (arith, e, n))
    | inr (pool, n) ↦ inl (pool, ground (arith, e, n))
  ]
]

-- Where a build has come to its end, with a configuration or with an error.
Good-config : (P : Config → Type 0) (b : Built) (d : Config) → b ≡ (some d, none) → P d → Good P b
Good-config P b d e h = subst (Good P) {x = (some d, none)} {y = b} (sym e) h

Good-error : (P : Config → Type 0) (b : Built) (x : TlsError) → b ≡ (none, some x) → Good P b
Good-error P b x e = subst (Good P) {x = (none, some x)} {y = b} (sym e) tt

with_trust-Good :
    (st : Store) (path : String) (c : Config)
    → str_eq path "" ≡ false
    → Good (VerifiesClient st path) (with_trust st path c)
unfolding with_trust
with_trust-Good st path c h = elim (trust_pool-cases st path) [
  | inl (pool, e) ↦
      Good-config (VerifiesClient st path) (with_trust st path c)
        (record c {
          client_cas = some pool;
          client_auth = require_and_verify_client_cert;
          insecure_skip_verify = false;
        })
        (ground (arith, h, e)) (record { auth = refl; pool = ground (arith, e); known = refl })
  | inr (x, e) ↦ Good-error (VerifiesClient st path) (with_trust st path c) x (ground (arith, h, e))
]

build_server-Good :
    (st : Store) (cert key path : String)
    → str_eq path "" ≡ false
    → Good (VerifiesClient st path) (build_server st cert key path)
unfolding build_server
build_server-Good st cert key path h = from_pair (st.load_x509_key_pair cert key) refl
  where
    from_pair :
        (o : Option ℕ)
        → st.load_x509_key_pair cert key ≡ o
        → Good (VerifiesClient st path) (build_server st cert key path)
    from_pair none e =
        Good-error (VerifiesClient st path) (build_server st cert key path) bad_key_pair
          (ground (arith, e))
    from_pair (some pair) e =
        subst (Good (VerifiesClient st path)) {y = build_server st cert key path}
          (ground (arith, e))
          (with_trust-Good st path
            (record init_config {
              insecure_skip_verify = true;
              client_auth = require_any_client_cert;
              certificates = pair ∷ [];
              tls12 = true;
            })
            h)

build_wss_server-Good :
    (st : Store) (cert key path : String)
    → str_eq path "" ≡ false
    → Good (VerifiesClient st path) (build_wss_server st cert key path)
unfolding build_wss_server
build_wss_server-Good st cert key path h = from_pair (st.load_x509_key_pair cert key) refl
  where
    from_pair :
        (o : Option ℕ)
        → st.load_x509_key_pair cert key ≡ o
        → Good (VerifiesClient st path) (build_wss_server st cert key path)
    from_pair none e =
        Good-error (VerifiesClient st path) (build_wss_server st cert key path) bad_key_pair
          (ground (arith, e))
    from_pair (some pair) e =
        subst (Good (VerifiesClient st path)) {y = build_wss_server st cert key path}
          (ground (arith, e))
          (with_trust-Good st path
            (record init_config {
              insecure_skip_verify = true;
              client_auth = no_client_cert;
              certificates = pair ∷ [];
            })
            h)

build_client-Good :
    (st : Store) (cert key path : String)
    → Good (VerifiesServer st path) (build_client st cert key path)
unfolding build_client
build_client-Good st cert key path = from_pair (st.load_x509_key_pair cert key) refl
  where
    from_pair :
        (o : Option ℕ)
        → st.load_x509_key_pair cert key ≡ o
        → Good (VerifiesServer st path) (build_client st cert key path)
    from_pair none e =
        Good-error (VerifiesServer st path) (build_client st cert key path) bad_key_pair
          (ground (arith, e))
    from_pair (some pair) e = elim (trust_pool-cases st path) [
      | inl (pool, t) ↦
          Good-config (VerifiesServer st path) (build_client st cert key path)
            (record init_config { tls12 = true; root_cas = some pool; certificates = pair ∷ [] })
            (ground (arith, e, t))
            (record { checked = refl; pool = ground (arith, t); known = refl; modern = refl })
      | inr (x, t) ↦
          Good-error (VerifiesServer st path) (build_client st cert key path) x
            (ground (arith, e, t))
    ]

build_wss_client-Good :
    (st : Store) (path : String)
    → str_eq path "" ≡ false
    → Good (VerifiesServer st path) (build_wss_client st path)
unfolding build_wss_client
build_wss_client-Good st path h = elim (trust_pool-cases st path) [
  | inl (pool, t) ↦
      Good-config (VerifiesServer st path) (build_wss_client st path)
        (record init_config { tls12 = true; root_cas = some pool }) (ground (arith, h, t))
        (record { checked = refl; pool = ground (arith, t); known = refl; modern = refl })
  | inr (x, t) ↦
      Good-error (VerifiesServer st path) (build_wss_client st path) x (ground (arith, h, t))
]

-- Where a file of trusted certificates is named, each of the four builds answers with an error and
-- no configuration, or with a configuration and no error, and that verifies the peer: a server,
-- also a WebSocket server, asks for the certificate of a client and holds it against those of the
-- file, and a client holds that of its server against them and takes no version below TLS 1.2.
pub build-Good :
    (st : Store) (cert key path : String)
    → str_eq path "" ≡ false
    → Good (VerifiesClient st path) (build_server st cert key path)
      × Good (VerifiesClient st path) (build_wss_server st cert key path)
      × Good (VerifiesServer st path) (build_client st cert key path)
      × Good (VerifiesServer st path) (build_wss_client st path)
build-Good st cert key path h = (
  build_server-Good st cert key path h,
  build_wss_server-Good st cert key path h,
  build_client-Good st cert key path,
  build_wss_client-Good st path h,
)
