-- ===== src/Programs/Accounts/Showing.antt =====
-- The programs that read print what the ledger holds.
use brale_miden_demo.Base.{ℕ, List, [], ◌∷◌, ◌++◌, ◌≡◌, ◌∙◌, ap, some, Result, ok, arith}
use brale_miden_demo.Text.{Str, text}
use brale_miden_demo.Decimal.{to_string}
use brale_miden_demo.Crypto.{Crypto}
use brale_miden_demo.Client.{Client, Error}
use brale_miden_demo.Config.{Config, Env, from_env}
use brale_miden_demo.Keystore.{FilesystemKeyStore}
use brale_miden_demo.Operations.Monad.{World, Action, ◌>>=◌, println}
use brale_miden_demo.Operations.Reads
use brale_miden_demo.Ledger.{Ledger, balance}
use brale_miden_demo.Ledger.Laws.{Laws}
use brale_miden_demo.Ledger.Online.{Readable, Tracked}
use brale_miden_demo.Ledger.Online.Reading.{read_balance-ok, read_total_supply-ok}
use brale_miden_demo.Ledger.Shows.{Shows, read_balance-shown, read_total_supply-shown}
use brale_miden_demo.Programs.Setup.{Machine, Prepared, Exit, ran}
use brale_miden_demo.Programs.Setup.Stages.{run-accepted}
use brale_miden_demo.Programs.Arguments.{balance_arguments, supply_arguments}
use brale_miden_demo.Programs.Accounts.{read_balance, read_supply}
use brale_miden_demo.Programs.Accounts.Reading.{untouched, NamesBalance}

-- One of the programs, with what its arguments name.
pub data Query (Account : Type 0) : Type 0 where
  balance_of : (account : Account) → Query Account
  supply : Query Account

module _ (C : Crypto) (F : FilesystemKeyStore C) (K : Client C) (M : Machine C F K) where
  -- The program of a query.
  abbrev pub program : Query K.AccountId → Env → List Str → M.Host → Exit C F K M
  program (balance_of account) env args = read_balance C F K M env args
  program supply env args = read_supply C F K M env

  -- The configuration names the issuer, and the arguments name what the query is of.
  abbrev pub Named : Query K.AccountId → Config → List Str → K.AccountId → Type 0
  Named (balance_of account) config args issuer = NamesBalance C F K M config args issuer account
  Named supply config args issuer =
      (i : Str) × (config.issuer_account_id ≡ some i) × (M.parse_account i ≡ ok issuer)

  -- The account that the answer is read from.
  abbrev pub about : K.AccountId → Query K.AccountId → K.AccountId
  about issuer (balance_of account) = account
  about issuer supply = issuer

  read : K.AccountId → Query K.AccountId → Action K.State ℕ
  read issuer (balance_of account) = Reads.read_balance C K account issuer
  read issuer supply = Reads.read_total_supply C K issuer

  -- The line that reports a number.
  abbrev pub line : K.AccountId → Query K.AccountId → ℕ → Str
  line issuer (balance_of account) n =
      text "Account " ++ (K.display_account account ++ (text " balance: " ++ to_string n))
  line issuer supply n =
      text "Issuer " ++ (K.display_account issuer ++ (text " total supply: " ++ to_string n))

  balance_arguments-read :
      (config : Config) (args : List Str) (issuer account : K.AccountId) (w : World M.Host)
      → Named (balance_of account) config args issuer
      → balance_arguments C F K M config args w ≡ (ok (issuer, account), w)
  unfolding balance_arguments
  balance_arguments-read config args issuer account w (i, a, ei, ea, pi, pa) = ground arith

  supply_arguments-read :
      (config : Config) (issuer : K.AccountId) (w : World M.Host)
      → Named supply config [] issuer
      → supply_arguments C F K M config w ≡ (ok issuer, w)
  unfolding supply_arguments
  supply_arguments-read config issuer w (i, ei, pi) = ground arith

  program-reads :
      (q : Query K.AccountId) (issuer : K.AccountId) (env : Env) (args : List Str) (host : M.Host)
      (p : Prepared C F K M) (r : Result Error (Unit {0})) (w' : World K.State)
      → Named q (from_env env) args issuer
      → program q env args host ≡ ran p r w'
      → (read issuer q >>= λ n. println (line issuer q n)) (untouched C F K M p) ≡ (r, w')
  unfolding read_balance read_supply read
  program-reads (balance_of account) issuer env args host p r w' named h =
      run-accepted C F K M (balance_arguments C F K M (from_env env) args) (from_env env)
        (λ (i, a). Reads.read_balance C K a i >>= λ n. println (line i (balance_of a) n))
        (issuer, account) host p r w'
        (λ w. balance_arguments-read (from_env env) args issuer account w named) h
  program-reads supply issuer env args host p r w' named h =
      run-accepted C F K M (supply_arguments C F K M (from_env env)) (from_env env)
        (λ i. Reads.read_total_supply C K i >>= λ n. println (line i supply n)) issuer host p r w'
        (λ w. supply_arguments-read (from_env env) issuer w named) h

  module _ (issuer : K.AccountId) (H : Laws C K issuer) (S : Shows C K issuer H)
      (R : Readable C K issuer) where
    -- What the ledger answers.
    abbrev pub answer : Query K.AccountId → Ledger K.AccountId → ℕ
    answer (balance_of account) l = balance ⦃e = H.account_eq⦄ account l.vaults
    answer supply l = l.supply

    -- A program ended without an error, printed the answer and left the client as it was built.
    abbrev pub Answered :
        Query K.AccountId → Prepared C F K M → Result Error (Unit {0}) → World K.State → Type 0
    Answered q p r w' =
        (r ≡ ok tt)
        × (w' ≡ record { state = p.client; out = line issuer q (answer q (H.view p.client)) ∷ [] })

    read-answer :
        (q : Query K.AccountId) (w : World K.State)
        → Tracked C K (about issuer q) w.state
        → read issuer q w ≡ (ok (answer q (H.view w.state)), w)
    unfolding read
    read-answer (balance_of account) w t =
        let (n, e) = read_balance-ok C K issuer R account w t in
        e ∙ (λ i. (ok (read_balance-shown C K issuer H S account n w (ap (λ q. q.0) e) i), w))
    read-answer supply w t =
        let (n, e) = read_total_supply-ok C K issuer R w t in
        e ∙ (λ i. (ok (read_total_supply-shown C K issuer H S n w (ap (λ q. q.0) e) i), w))

    -- Where `read_balance` or `read_supply` comes to have a client, its arguments name an account, if any,
    -- and the configuration an issuer, the account that it reads is tracked, its vault and storage can be
    -- read, and the client's accounts hold what the ledger says: then the program ends without an error,
    -- prints one line, with the balance or the supply of the ledger, and leaves the client as it was built.
    pub program-Answered :
        (q : Query K.AccountId) (env : Env) (args : List Str) (host : M.Host) (p : Prepared C F K M)
        (r : Result Error (Unit {0})) (w' : World K.State)
        → Named q (from_env env) args issuer
        → Tracked C K (about issuer q) p.client
        → program q env args host ≡ ran p r w'
        → Answered q p r w'
    program-Answered q env args host p r w' named tracked h =
        let w = untouched C F K M p in
        let there = program-reads q issuer env args host p r w' named h in
        let found = read-answer q w tracked in (ground arith, ground arith)
