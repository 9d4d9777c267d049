-- ===== src/Tests/Accounts.antt =====
-- The programs that create and read accounts, at concrete inputs.
use brale_miden_demo.Base.{
  ℕ, ◌%◌, ◌^◌, ◌<◌, ◌≡◌, refl, [], ◌∷◌, ◌++◌, List, some, ok, returned, arith,
}
use brale_miden_demo.Text.{Str, text}
use brale_miden_demo.Decimal.{parse, scan, to_string, digits}
use brale_miden_demo.Config.{from_env}
use brale_miden_demo.Keystore
use brale_miden_demo.Keystore.{get_signature}
use brale_miden_demo.MockSigner.{as_signer}
use brale_miden_demo.MockSigner.Laws.{registered}
use brale_miden_demo.Operations.Monad.{World}
use brale_miden_demo.Operations.Links.{account_link}
use brale_miden_demo.Operations.Accounts.{create_wallet_account, deploy_issuer_account}
use brale_miden_demo.Operations.Reads
use brale_miden_demo.Operations.Reads.{read_token_metadata, read_total_supply}
use brale_miden_demo.Operations.Deployment.{modulus}
use brale_miden_demo.Programs.Setup.{Machine, Prepared, prepare, run, ran}
use brale_miden_demo.Programs.Setup.Signing.{prepare-signs, signed_by}
use brale_miden_demo.Programs.Arguments.{deploy_arguments}
use brale_miden_demo.Programs.Arguments.Laws.{deploy_arguments-bounds, deploy_arguments-to_string}
use brale_miden_demo.Programs.Accounts.{create_account, deploy_issuer}
use brale_miden_demo.Programs.Accounts.Deployed.{deploy_issuer-reads}
use brale_miden_demo.Tests.Doubles.{Store, crypto, crypto-Laws, one_key, client, client-Laws}
use brale_miden_demo.Tests.Machines.{machine, env, prepared}

prepare-signs_example :
    (secret : ℕ) × (◌≡◌ {A = ℕ} 105 (crypto.public_key secret))
    × ((key inputs : ℕ)
        → get_signature crypto one_key prepared.keystore key inputs
          ≡ returned (signed_by crypto one_key client machine secret key inputs))
unfolding prepare Keystore.new
prepare-signs_example =
    prepare-signs crypto one_key client machine crypto-Laws (from_env env) prepared
      (record { state = 0; out = [] }) (record { state = 0; out = [] }) refl

deploy_arguments-bounds_run :
    ((deploy_arguments (text "deploy_issuer" ∷ text "EUR" ∷ text "300" ∷ [])).decimals < 2 ^ 8)
    × ((deploy_arguments (text "deploy_issuer" ∷ text "EUR" ∷ text "300" ∷ [])).max_supply < 2 ^ 64)
deploy_arguments-bounds_run =
    deploy_arguments-bounds (text "deploy_issuer" ∷ text "EUR" ∷ text "300" ∷ [])

deploy_arguments-to_string_run :
    deploy_arguments (text "deploy_issuer" ∷ text "EUR" ∷ to_string 2 ∷ to_string 500 ∷ [])
    ≡ record { symbol = text "EUR"; decimals = 2; max_supply = 500 }
deploy_arguments-to_string_run =
    deploy_arguments-to_string (text "deploy_issuer") (text "EUR") 2 500 (omega arith) (omega arith)

abbrev deploy_args : List Str
deploy_args = text "deploy_issuer" ∷ text "EUR" ∷ text "2" ∷ text "500" ∷ []

abbrev deployed : World Store
deployed = record {
  state = record { syncs = 0; account = some (2, 500, 2, 3) };
  out =
      account_link crypto client 2
      ∷ (text "Issuer account deployed: " ++ (2 ∷ []))
      ∷ text "Symbol: EUR, Decimals: 2, Max supply: 500"
      ∷ [];
}

deploy_issuer-reads_example :
    let d = deploy_arguments deploy_args in
    (account : ℕ × ℕ × ℕ × ℕ) × (t : ℕ) × (client.token_symbol d.symbol ≡ ok t)
    × (read_token_metadata crypto client (client.account_id account) deployed ≡ (
      ok (record { symbol = t; decimals = d.decimals; max_supply = d.max_supply % modulus }),
      deployed,
    ))
    × (read_total_supply crypto client (client.account_id account) deployed ≡ (ok 0, deployed))
unfolding deploy_issuer run prepare from_env Keystore.new deploy_arguments parse scan
    deploy_issuer_account to_string digits
deploy_issuer-reads_example =
    deploy_issuer-reads crypto one_key client machine client-Laws env deploy_args 0 prepared
      deployed refl

-- An account that is tracked before the program runs.
abbrev tracking : Machine crypto one_key client
tracking = record machine {
  build_client =
      λ endpoint path keystore h. (ok (record { syncs = 0; account = some (2, 0, 0, 0) }), h);
}

abbrev tracking_prepared : Prepared crypto one_key client tracking
tracking_prepared = record {
  public_key = 105;
  keystore = Keystore.new crypto one_key (some 5) (as_signer crypto (registered crypto (5 ∷ [])));
  client = record { syncs = 0; account = some (2, 0, 0, 0) };
}

abbrev printed : Str → World Store
printed line = record { state = record { syncs = 0; account = some (2, 0, 0, 0) }; out = line ∷ [] }

abbrev balance_line : Str
balance_line = text "Account " ++ (2 ∷ text " balance: 0")

create_account_run :
    create_account crypto one_key client machine env 0
    ≡ ran prepared (ok tt) (record {
      state = record { syncs = 0; account = some (1, 0, 0, 0) };
      out = account_link crypto client 1 ∷ (text "Wallet account created: " ++ (1 ∷ [])) ∷ [];
    })
unfolding create_account run prepare from_env Keystore.new create_wallet_account
create_account_run = refl
