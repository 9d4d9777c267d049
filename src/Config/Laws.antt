-- ===== src/Config/Laws.antt =====
-- How a variable reaches the configuration.
use package.text.Mathlib.Text.{◌==◌}
use brale_miden_demo.Base.{
  String, Bool, true, false, ◌≡◌, refl, none, some, Result, ok, err, to_option, if◌then◌else◌,
}
use brale_miden_demo.Text.{Str, text}
use brale_miden_demo.Config.{Env, VarError, Config, from_env, unwrap_or_else}

-- The environment with one variable set.
abbrev pub set_var : String → Str → Env → Env
set_var name value env other = if name == other then ok value else env other

-- The configuration with the field replaced that a variable names, if one does.
abbrev pub override : String → Str → Config → Config
override name value c = record {
  miden_rpc_endpoint = if name == "MIDEN_RPC_ENDPOINT" then value else c.miden_rpc_endpoint;
  psm_endpoint = if name == "PSM_ENDPOINT" then value else c.psm_endpoint;
  sqlite_store_path = if name == "SQLITE_STORE_PATH" then value else c.sqlite_store_path;
  keystore_path = if name == "KEYSTORE_PATH" then value else c.keystore_path;
  issuer_account_id = if name == "ISSUER_ACCOUNT_ID" then some value else c.issuer_account_id;
  log_level = if name == "LOG_LEVEL" then value else c.log_level;
}

unwrap_or_else-if :
    (b : Bool) (value : Str) (r : Result VarError Str) (default : Str)
    → unwrap_or_else (if b then ok value else r) default
      ≡ (if b then value else unwrap_or_else r default)
unwrap_or_else-if true value r default = refl
unwrap_or_else-if false value r default = refl

to_option-if :
    (b : Bool) (value : Str) (r : Result VarError Str)
    → to_option (if b then ok value else r) ≡ (if b then some value else to_option r)
to_option-if true value r = refl
to_option-if false value r = refl

unwrap_or_else-absent :
    (r : Result VarError Str) (default : Str)
    → to_option r ≡ none
    → unwrap_or_else r default ≡ default
unwrap_or_else-absent (ok value) default h = cc
unwrap_or_else-absent (err e) default h = refl

-- Setting a variable replaces the field that it names and no other, and a variable that names no field
-- changes nothing.
pub from_env-set_var :
    (name : String) (value : Str) (env : Env)
    → from_env (set_var name value env) ≡ override name value (from_env env)
unfolding from_env
from_env-set_var name value env = λ i. record {
  miden_rpc_endpoint =
      unwrap_or_else-if (name == "MIDEN_RPC_ENDPOINT") value (env "MIDEN_RPC_ENDPOINT")
        (text "https://rpc.testnet.miden.io") i;
  psm_endpoint =
      unwrap_or_else-if (name == "PSM_ENDPOINT") value (env "PSM_ENDPOINT")
        (text "http://localhost:50051") i;
  sqlite_store_path =
      unwrap_or_else-if (name == "SQLITE_STORE_PATH") value (env "SQLITE_STORE_PATH")
        (text "./store.sqlite3") i;
  keystore_path =
      unwrap_or_else-if (name == "KEYSTORE_PATH") value (env "KEYSTORE_PATH") (text "./keystore") i;
  issuer_account_id = to_option-if (name == "ISSUER_ACCOUNT_ID") value (env "ISSUER_ACCOUNT_ID") i;
  log_level = unwrap_or_else-if (name == "LOG_LEVEL") value (env "LOG_LEVEL") (text "info") i;
}

-- A value that is no valid Unicode counts as no value, and with no variable set the defaults of the
-- README hold and there is no issuer.
pub from_env-unset :
    (env : Env)
    → ((name : String) → to_option (env name) ≡ none)
    → from_env env ≡ record {
      miden_rpc_endpoint = text "https://rpc.testnet.miden.io";
      psm_endpoint = text "http://localhost:50051";
      sqlite_store_path = text "./store.sqlite3";
      keystore_path = text "./keystore";
      issuer_account_id = none;
      log_level = text "info";
    }
unfolding from_env
from_env-unset env h = λ i. record {
  miden_rpc_endpoint =
      unwrap_or_else-absent (env "MIDEN_RPC_ENDPOINT") (text "https://rpc.testnet.miden.io") (h _)
        i;
  psm_endpoint = unwrap_or_else-absent (env "PSM_ENDPOINT") (text "http://localhost:50051") (h _) i;
  sqlite_store_path =
      unwrap_or_else-absent (env "SQLITE_STORE_PATH") (text "./store.sqlite3") (h _) i;
  keystore_path = unwrap_or_else-absent (env "KEYSTORE_PATH") (text "./keystore") (h _) i;
  issuer_account_id = h "ISSUER_ACCOUNT_ID" i;
  log_level = unwrap_or_else-absent (env "LOG_LEVEL") (text "info") (h _) i;
}
