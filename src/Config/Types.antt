-- ===== src/Config/Types.antt =====
-- The configurations of the server and of the client, as the loaders and the command line make them.
use py_frp.Base.{ℕ, Bool, Option, List}
use py_frp.Base.Texts.{Text}
use py_frp.Value.{Float}

pub record ServerServiceConfig : Type 0 where
  pub name : Text
  pub bind_host : Text
  pub bind_port : ℕ
  pub token : Option Text

pub record ServerConfig : Type 0 where
  pub bind_host : Text
  pub bind_port : ℕ
  pub token : Option Text
  pub services : List ServerServiceConfig
  pub allow_dynamic : Bool
  pub source_flavor : Text
  pub open_timeout : Float
  pub port_pool : List ℕ
  pub pool_tokens : List Text
  pub pool_bind_host : Text

pub record ProxyConfig : Type 0 where
  pub name : Text
  pub local_host : Text
  pub local_port : ℕ
  pub remote_host : Option Text
  pub remote_port : Option ℕ
  pub token : Option Text

pub record ClientConfig : Type 0 where
  pub server_host : Text
  pub server_port : ℕ
  pub proxies : List ProxyConfig
  pub token : Option Text
  pub source_flavor : Text
  pub reconnect_delay : Float
  pub connect_timeout : Float
  pub heartbeat_interval : Float
  pub server_fingerprint : Option Text
