-- ===== src/Programs/Arguments.antt =====
-- The arguments of the programs, and the issuer from the configuration, in the order in which the
-- programs check them.
pub mod Laws
use brale_miden_demo.Base.{
  ℕ, List, Option, none, some, get_elem?, Result, ok, err, [], ◌∷◌, map_err, to_option,
}
use brale_miden_demo.Text.{Str, text}
use brale_miden_demo.Decimal
use brale_miden_demo.Decimal.{IntErrorKind, parse, max_u8, max_u64}
use brale_miden_demo.Crypto.{Crypto}
use brale_miden_demo.Client.{Client, Error}
use brale_miden_demo.Config.{Config}
use brale_miden_demo.Keystore.{FilesystemKeyStore}
use brale_miden_demo.Operations.Monad.{Action, ◌>>=◌, pure, lift, context, some_or}
use brale_miden_demo.Programs.Setup.{Machine}

-- What a `ParseIntError` displays.
abbrev display_int : IntErrorKind → Str
display_int Decimal.empty = text "cannot parse integer from empty string"
display_int Decimal.invalid_digit = text "invalid digit found in string"
display_int Decimal.pos_overflow = text "number too large to fit in target type"

-- `parse` to a `u64`.
abbrev pub parse_amount : Str → Result Error ℕ
parse_amount s = map_err (λ e. display_int e ∷ []) (parse max_u64 s)

abbrev unwrap_or {ℓ} : {A : Type ℓ} → Option A → A → A
unwrap_or none default = default
unwrap_or (some a) default = a

-- `nth(n).and_then(|s| s.parse().ok()).unwrap_or(default)`
abbrev pub number_or : ℕ → List Str → ℕ → ℕ → ℕ
number_or most args n default = elim (get_elem? args n) [
  | none ↦ default
  | some s ↦ unwrap_or (to_option (parse most s)) default
]

pub record Deployment : Type 0 where
  pub symbol : Str
  pub decimals : ℕ
  pub max_supply : ℕ

unfoldable pub deploy_arguments : List Str → Deployment
deploy_arguments args = record {
  symbol = unwrap_or (get_elem? args 1) (text "USDB");
  decimals = number_or max_u8 args 2 6;
  max_supply = number_or max_u64 args 3 1000000000000;
}

module _ (C : Crypto) (F : FilesystemKeyStore C) (K : Client C) (M : Machine C F K) where
  abbrev pub account_of : Str → Str → Action M.Host K.AccountId
  account_of message s = context message (lift (M.parse_account s))

  abbrev issuer_of : Config → Action M.Host Str
  issuer_of config = some_or (text "ISSUER_ACCOUNT_ID must be set in .env") config.issuer_account_id

  abbrev amount_of : Str → Option Str → Action M.Host ℕ
  amount_of usage found = do
    s ← some_or usage found
    context (text "amount must be a number") (lift (parse_amount s))

  -- An account and an amount: of `mint`, and of `burn`.
  unfoldable pub account_and_amount :
      Str → Str → Config → List Str → Action M.Host (K.AccountId × K.AccountId × ℕ)
  account_and_amount usage invalid config args = do
    issuer_id_str ← issuer_of config
    target_id_str ← some_or usage (get_elem? args 1)
    amount ← amount_of usage (get_elem? args 2)
    issuer_id ← account_of (text "invalid issuer account ID") issuer_id_str
    target_id ← account_of invalid target_id_str
    pure (issuer_id, target_id, amount)

  abbrev transfer_usage : Str
  transfer_usage = text "usage: transfer <sender_id> <recipient_id> <amount>"

  -- The issuer, the sender, the recipient and the amount.
  unfoldable pub transfer_arguments :
      Config → List Str → Action M.Host (K.AccountId × K.AccountId × K.AccountId × ℕ)
  transfer_arguments config args = do
    issuer_id_str ← issuer_of config
    sender_id_str ← some_or transfer_usage (get_elem? args 1)
    recipient_id_str ← some_or transfer_usage (get_elem? args 2)
    amount ← amount_of transfer_usage (get_elem? args 3)
    issuer_id ← account_of (text "invalid issuer account ID") issuer_id_str
    sender_id ← account_of (text "invalid sender account ID") sender_id_str
    recipient_id ← account_of (text "invalid recipient account ID") recipient_id_str
    pure (issuer_id, sender_id, recipient_id, amount)

  unfoldable pub balance_arguments : Config → List Str → Action M.Host (K.AccountId × K.AccountId)
  balance_arguments config args = do
    issuer_id_str ← issuer_of config
    account_id_str ← some_or (text "usage: read_balance <account_id>") (get_elem? args 1)
    issuer_id ← account_of (text "invalid issuer account ID") issuer_id_str
    account_id ← account_of (text "invalid account ID") account_id_str
    pure (issuer_id, account_id)

  unfoldable pub supply_arguments : Config → Action M.Host K.AccountId
  supply_arguments config = do
    issuer_id_str ← issuer_of config
    account_of (text "invalid issuer account ID") issuer_id_str
