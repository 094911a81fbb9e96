-- ===== src/Postgres/Tls.antt =====
-- crates/transferred-postgres/src/tls.rs: rustls connectors, one that verifies the server and one that
-- only encrypts. rustls itself is a parameter.
use transferred.Prelude.{ℕ, Text, List, [], ◌∷◌, Result, ok, err}
use transferred.Prelude.Bytes.{Bytes}
use transferred.Core.Error.{AnyError, root, lit, foreign}
use transferred.Postgres.Client.{Call, Driver}

-- `rustls::client::danger::ServerCertVerifier`
pub record ServerCertVerifier (Cert ServerName Signature Scheme TlsError : Type 0) : Type 0 where
  pub verify_server_cert : Cert → List Cert → ServerName → Bytes → ℕ → Result (Unit {0}) TlsError
  pub verify_tls12_signature : Bytes → Cert → Signature → Result (Unit {0}) TlsError
  pub verify_tls13_signature : Bytes → Cert → Signature → Result (Unit {0}) TlsError
  pub supported_verify_schemes : List Scheme

-- What the connectors are built from. The algorithms of a provider are its
-- `signature_verification_algorithms`; a certificate of the platform that cannot be read is an error of
-- its own.
pub record Rustls {ℓ} (W : Type ℓ) : Type (ℓ ⊔ 1) where
  pub CertificateDer : Type 0
  pub ServerName : Type 0
  pub Signature : Type 0
  pub Scheme : Type 0
  pub TlsError : Type 0
  pub Algorithms : Type 0
  pub Connector : Type 0
  pub crypto_provider : Algorithms
  pub verify_tls12_signature :
      Bytes → CertificateDer → Signature → Algorithms → Result (Unit {0}) TlsError
  pub verify_tls13_signature :
      Bytes → CertificateDer → Signature → Algorithms → Result (Unit {0}) TlsError
  pub supported_schemes : Algorithms → List Scheme
  pub with_custom_certificate_verifier :
      ServerCertVerifier CertificateDer ServerName Signature Scheme TlsError → Connector
  pub with_native_certs : W → Result (Connector × List AnyError) (List AnyError) × W

module _ {ℓ} {W : Type ℓ} (R : Rustls W) where
  abbrev pub Verifier : Type 0
  Verifier = ServerCertVerifier R.CertificateDer R.ServerName R.Signature R.Scheme R.TlsError

  -- `AcceptAnyServer` over the algorithms of a provider: no certificate is looked at, while what is
  -- signed with it is.
  unfoldable pub accept_any_server : R.Algorithms → Verifier
  accept_any_server algorithms = record {
    verify_server_cert = λ end_entity intermediates name ocsp_response now. ok tt;
    verify_tls12_signature =
        λ message cert dss. R.verify_tls12_signature message cert dss algorithms;
    verify_tls13_signature =
        λ message cert dss. R.verify_tls13_signature message cert dss algorithms;
    supported_verify_schemes = R.supported_schemes algorithms;
  }

  unfoldable pub encrypting_connector : R.Connector
  unfolding accept_any_server
  encrypting_connector = R.with_custom_certificate_verifier (accept_any_server R.crypto_provider)

  abbrev pub no_usable_certificate : AnyError
  no_usable_certificate = root (
      lit "sslmode=verify-full: no usable CA certificate in the platform trust store: "
      ∷ foreign "the errors"
      ∷ [])

  -- The connector, whether or not some certificates were skipped.
  unfoldable pub trusted :
      Result (R.Connector × List AnyError) (List AnyError) → Result R.Connector AnyError
  trusted (err errors) = err no_usable_certificate
  trusted (ok (connector, unreadable)) = ok connector

  unfoldable pub verifying_connector : Call W R.Connector
  unfolding trusted
  verifying_connector w = (trusted (R.with_native_certs w).0, (R.with_native_certs w).1)

  -- The connectors as the driver has them, beside the parser of a DSN and `Config::connect`.
  unfoldable pub driver_over :
      (Config : Type 0)
      → (Text → Result Config AnyError)
      → (Config → R.Connector → Call W (Unit {0}))
      → Driver W
  unfolding encrypting_connector verifying_connector
  driver_over Config parse connect = record {
    Config = Config;
    Connector = R.Connector;
    parse_config = parse;
    encrypting_connector = encrypting_connector;
    verifying_connector = verifying_connector;
    connect_with = connect;
  }
