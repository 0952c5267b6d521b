-- ===== src/Options.antt =====
-- transport/options.go: the options of a client and of a server. A pool of tasks, a builder of a TLS
-- configuration and the rest that the code only passes on is a reference, a number.
use Prim.Native.String.{String}
use getty.Common.{ℕ, suc, Bool, false, Option, none, ℤ, pos}

pub record ServerOptions : Type 0 where
  pub addr : String
  pub ssl_enabled : Bool
  pub tls_config_builder : Option ℕ
  pub path : String
  pub cert : String
  pub private_key : String
  pub ca_cert : String
  pub t_pool : Option ℕ

abbrev pub ServerOption : Type 0
ServerOption = ServerOptions → ServerOptions

unfoldable pub with_local_address : String → ServerOption
with_local_address a o = record o { addr = a }

unfoldable pub with_websocket_server_path : String → ServerOption
with_websocket_server_path p o = record o { path = p }

unfoldable pub with_websocket_server_cert : String → ServerOption
with_websocket_server_cert c o = record o { cert = c }

unfoldable pub with_websocket_server_private_key : String → ServerOption
with_websocket_server_private_key k o = record o { private_key = k }

unfoldable pub with_websocket_server_root_cert : String → ServerOption
with_websocket_server_root_cert c o = record o { ca_cert = c }

unfoldable pub with_server_task_pool : Option ℕ → ServerOption
with_server_task_pool p o = record o { t_pool = p }

unfoldable pub with_server_ssl_enabled : Bool → ServerOption
with_server_ssl_enabled b o = record o { ssl_enabled = b }

unfoldable pub with_server_tls_config_builder : Option ℕ → ServerOption
with_server_tls_config_builder b o = record o { tls_config_builder = b }

-- The guards of the setters keep out what is not positive, so no number here is negative.
pub record ClientOptions : Type 0 where
  pub addr : String
  pub number : ℕ
  pub reconnect_interval : ℕ
  pub max_reconnect_attempts : ℕ
  pub ssl_enabled : Bool
  pub tls_config_builder : Option ℕ
  pub cert : String
  pub t_pool : Option ℕ

abbrev pub ClientOption : Type 0
ClientOption = ClientOptions → ClientOptions

-- The zero value that `init` starts from.
abbrev pub no_client_options : ClientOptions
no_client_options = record {
  addr = "";
  number = 0;
  reconnect_interval = 0;
  max_reconnect_attempts = 0;
  ssl_enabled = false;
  tls_config_builder = none;
  cert = "";
  t_pool = none;
}

unfoldable pub with_server_address : String → ClientOption
with_server_address a o = record o { addr = a }

unfoldable pub with_reconnect_interval : ℤ → ClientOption
with_reconnect_interval (pos (suc n)) o = record o { reconnect_interval = suc n }
with_reconnect_interval _ o = o

unfoldable pub with_client_task_pool : Option ℕ → ClientOption
with_client_task_pool p o = record o { t_pool = p }

unfoldable pub with_connection_number : ℤ → ClientOption
with_connection_number (pos (suc n)) o = record o { number = suc n }
with_connection_number _ o = o

unfoldable pub with_root_certificate_file : String → ClientOption
with_root_certificate_file c o = record o { cert = c }

unfoldable pub with_client_ssl_enabled : Bool → ClientOption
with_client_ssl_enabled b o = record o { ssl_enabled = b }

unfoldable pub with_client_tls_config_builder : Option ℕ → ClientOption
with_client_tls_config_builder b o = record o { tls_config_builder = b }

unfoldable pub with_reconnect_attempts : ℤ → ClientOption
with_reconnect_attempts (pos (suc n)) o = record o { max_reconnect_attempts = suc n }
with_reconnect_attempts _ o = o
