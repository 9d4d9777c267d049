-- ===== src/Programs/Accounts/Deployed.antt =====
-- What the reads show once `deploy_issuer` has returned.
use brale_miden_demo.Base.{[], ◌%◌, ◌≡◌, List, inl, inr, ok, Result-cases, arith}
use brale_miden_demo.Text.{Str}
use brale_miden_demo.Crypto.{Crypto}
use brale_miden_demo.Client.{Client}
use brale_miden_demo.Config.{Env, from_env}
use brale_miden_demo.Keystore.{FilesystemKeyStore}
use brale_miden_demo.Operations.Monad.{World}
use brale_miden_demo.Operations.Accounts.{deploy_issuer_account}
use brale_miden_demo.Operations.Reads.{read_token_metadata, read_total_supply}
use brale_miden_demo.Operations.Deployment
use brale_miden_demo.Operations.Deployment.{
  modulus, Deployed, deploy_issuer_account-Deployed, metadata_read, supply_read,
}
use brale_miden_demo.Programs.Setup.{Machine, Prepared, run, ran, prepare}
use brale_miden_demo.Programs.Arguments.{deploy_arguments}
use brale_miden_demo.Programs.Arguments.Laws.{deploy_arguments-bounds}
use brale_miden_demo.Programs.Accounts.{deploy_issuer}

module _ (C : Crypto) (F : FilesystemKeyStore C) (K : Client C) (M : Machine C F K)
    (L : Deployment.Laws C K) where
  -- The account that the program deployed.
  deploy_issuer-Deployed :
      (env : Env) (args : List Str) (host : M.Host) (p : Prepared C F K M) (w' : World K.State)
      → deploy_issuer C F K M env args host ≡ ran p (ok tt) w'
      → (account : K.Account) × Deployed C K L
          (deploy_arguments args).symbol
          (deploy_arguments args).decimals
          (deploy_arguments args).max_supply
          account
          w'
  unfolding deploy_issuer run Deployed
  deploy_issuer-Deployed env args host p w' h =
      let d = deploy_arguments args in
      let made = prepare C F K M (from_env env) (record { state = host; out = [] }) in
      elim (Result-cases made.0) [
        | inl (q, eq) ↦
            let after =
              deploy_issuer_account C K q.public_key d.symbol d.decimals d.max_supply
                (record { state = q.client; out = made.1.out }) in
            elim (Result-cases after.0) [
              | inl (account, ea) ↦
                  let (t, et, metadata, issuance, tracks) =
                    deploy_issuer_account-Deployed C K L q.public_key d.symbol d.decimals
                      d.max_supply account (record { state = q.client; out = made.1.out }) after.1
                      (λ i. (ea i, after.1)) in
                  (account, (t, et, metadata, issuance, ground arith))
              | inr (x, ea) ↦ absurd (ground arith)
            ]
        | inr (x, eq) ↦ absurd (ground arith)
      ]

  -- Once `deploy_issuer` has returned without an error, with whatever arguments, there is an account whose
  -- metadata reads as the symbol and the decimals of the arguments and their maximal supply reduced
  -- modulo the order of the field, and whose total supply reads as zero.
  pub deploy_issuer-reads :
      (env : Env) (args : List Str) (host : M.Host) (p : Prepared C F K M) (w' : World K.State)
      → deploy_issuer C F K M env args host ≡ ran p (ok tt) w'
      → let d = deploy_arguments args in
        (account : K.Account) × (t : K.TokenSymbol) × (K.token_symbol d.symbol ≡ ok t)
        × (read_token_metadata C K (K.account_id account) w' ≡ (
          ok (record { symbol = t; decimals = d.decimals; max_supply = d.max_supply % modulus }),
          w',
        ))
        × (read_total_supply C K (K.account_id account) w' ≡ (ok 0, w'))
  unfolding Deployed
  deploy_issuer-reads env args host p w' h =
      let d = deploy_arguments args in
      let (account, (t, et, metadata, issuance, tracks)) =
        deploy_issuer-Deployed env args host p w' h in
      (
        account,
        t,
        et,
        metadata_read C K L account t d.decimals d.max_supply w' (deploy_arguments-bounds args).0
            tracks metadata,
        supply_read C K L account w' tracks issuance,
      )
