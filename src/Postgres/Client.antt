-- ===== src/Postgres/Client.antt =====
-- What `tokio-postgres` and the server behind it do, as the connector calls them: a parameter. `W` is
-- the world that the calls act on; a connection has at most one COPY and one transaction open.
use transferred.Prelude.{ℕ, Text, List, Result}
use transferred.Prelude.Bytes.{Bytes}
use transferred.Core.Error.{AnyError}
use transferred.Postgres.Protocol.{PgColumn}

abbrev pub Call {ℓ} : Type ℓ → Type 0 → Type ℓ
Call W A = W → Result A AnyError × W

pub record Client {ℓ} (W : Type ℓ) : Type ℓ where
  pub batch_execute : Text → Call W (Unit {0})
  pub parse_ident : Text → Call W (List Text)
  pub regclass : Text → Call W Text
  pub prepare : Text → Call W (List PgColumn)
  pub copy_out : Text → Call W (List (Result Bytes AnyError))
  -- `copy_in` opens the sink, `send` and `finish` use it, `drop_sink` is its destructor.
  pub copy_in : Text → Call W (Unit {0})
  pub send : Bytes → Call W (Unit {0})
  pub finish : Call W ℕ
  pub drop_sink : W → W
  -- A transaction that is dropped before `commit` is rolled back.
  pub transaction : Call W (Unit {0})
  pub execute_in : Text → Call W (Unit {0})
  pub commit : Call W (Unit {0})
  pub rollback : W → W

-- Parsing a DSN, the two TLS connectors, and connecting over one of them.
pub record Driver {ℓ} (W : Type ℓ) : Type (ℓ ⊔ 1) where
  pub Config : Type 0
  pub Connector : Type 0
  pub parse_config : Text → Result Config AnyError
  pub encrypting_connector : Connector
  pub verifying_connector : Call W Connector
  pub connect_with : Config → Connector → Call W (Unit {0})
