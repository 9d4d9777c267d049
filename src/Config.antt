-- ===== src/Config.antt =====
-- integration/src/config.rs: the configuration from environment variables.
pub mod Laws
use brale_miden_demo.Base.{String, Option, Result, ok, err, to_option}
use brale_miden_demo.Text.{Str, text}

-- `std::env::VarError`
pub data VarError : Type 0 where
  not_present : VarError
  not_unicode : Str → VarError

-- `std::env::var` over the process environment.
abbrev pub Env : Type 0
Env = String → Result VarError Str

-- Paths are kept as the texts that they are made from.
pub record Config : Type 0 where
  pub miden_rpc_endpoint : Str
  pub psm_endpoint : Str
  pub sqlite_store_path : Str
  pub keystore_path : Str
  pub issuer_account_id : Option Str
  pub log_level : Str

-- `Result::unwrap_or_else` with a handler that ignores the error.
abbrev pub unwrap_or_else : Result VarError Str → Str → Str
unwrap_or_else (ok value) default = value
unwrap_or_else (err e) default = default

unfoldable pub from_env : Env → Config
from_env env = record {
  miden_rpc_endpoint =
      unwrap_or_else (env "MIDEN_RPC_ENDPOINT") (text "https://rpc.testnet.miden.io");
  psm_endpoint = unwrap_or_else (env "PSM_ENDPOINT") (text "http://localhost:50051");
  sqlite_store_path = unwrap_or_else (env "SQLITE_STORE_PATH") (text "./store.sqlite3");
  keystore_path = unwrap_or_else (env "KEYSTORE_PATH") (text "./keystore");
  issuer_account_id = to_option (env "ISSUER_ACCOUNT_ID");
  log_level = unwrap_or_else (env "LOG_LEVEL") (text "info");
}

-- `Default for Config`
unfoldable pub default : Env → Config
unfolding from_env
default env = from_env env
