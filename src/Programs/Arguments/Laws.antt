-- ===== src/Programs/Arguments/Laws.antt =====
-- What the arguments of the programs stand for.
use brale_miden_demo.Base.{
  ℕ, ◌+◌, ◌-◌, ◌*◌, ◌^◌, ◌≤◌, ◌<◌, ◌≡◌, [], ◌∷◌, List, some, get_elem?, inl, inr, ok, Result-cases,
  Option-cases, arith,
}
use brale_miden_demo.Text.{Str}
use brale_miden_demo.Decimal.{scan, parse, to_string, max_u8, max_u64}
use brale_miden_demo.Decimal.RoundTrip.{parse-to_string}
use brale_miden_demo.Crypto.{Crypto}
use brale_miden_demo.Client.{Client}
use brale_miden_demo.Config.{Config}
use brale_miden_demo.Keystore.{FilesystemKeyStore}
use brale_miden_demo.Operations.Monad.{World}
use brale_miden_demo.Programs.Setup.{Machine}
use brale_miden_demo.Programs.Arguments.{number_or, deploy_arguments, account_and_amount}

scan-le : (most : ℕ) (s : Str) (n m : ℕ) → n ≤ most → scan most s n ≡ ok m → m ≤ most
unfolding scan
scan-le most [] n m le h = ground arith
scan-le most (c ∷ s) n m le h = ground (arith, scan-le most s (n * 10 + (c - b'0')) m)

parse-le : (most : ℕ) (s : Str) (n : ℕ) → parse most s ≡ ok n → n ≤ most
unfolding parse
parse-le most [] n h = ground arith
parse-le most (c ∷ []) n h = ground (arith, scan-le most (c ∷ []) 0 n)
parse-le most (c ∷ d ∷ s) n h =
    ground (arith, scan-le most (c ∷ d ∷ s) 0 n, scan-le most (d ∷ s) 0 n)

number_or-le :
    (most : ℕ) (args : List Str) (n default : ℕ)
    → default ≤ most
    → number_or most args n default ≤ most
number_or-le most args n default le = elim (Option-cases (get_elem? args n)) [
  | inl absent ↦ ground arith
  | inr (s, found) ↦ elim (Result-cases (parse most s)) [
    | inl (k, parsed) ↦ ground (arith, parse-le most s k parsed)
    | inr (e, failed) ↦ ground arith
  ]
]

-- Whatever the arguments are, the decimals of a deployment fit a byte and its maximal supply fits 64
-- bits.
pub deploy_arguments-bounds :
    (args : List Str)
    → ((deploy_arguments args).decimals < 2 ^ 8) × ((deploy_arguments args).max_supply < 2 ^ 64)
unfolding deploy_arguments
deploy_arguments-bounds args = (
  omega (arith, number_or-le max_u8 args 2 6 (omega arith)),
  omega (arith, number_or-le max_u64 args 3 1000000000000 (omega arith)),
)

-- Where the arguments of a deployment are a symbol and the prints of decimals that fit a byte and of a
-- maximal supply that fits 64 bits, the deployment is of these.
pub deploy_arguments-to_string :
    (program symbol : Str) (decimals max_supply : ℕ)
    → decimals < 2 ^ 8
    → max_supply < 2 ^ 64
    → deploy_arguments (program ∷ symbol ∷ to_string decimals ∷ to_string max_supply ∷ [])
      ≡ record { symbol = symbol; decimals = decimals; max_supply = max_supply }
unfolding deploy_arguments
deploy_arguments-to_string program symbol decimals max_supply hd hm = rw (
  parse-to_string max_u8 decimals (omega arith) (omega arith),
  parse-to_string max_u64 max_supply (omega arith) (omega arith),
)

module _ (C : Crypto) (F : FilesystemKeyStore C) (K : Client C) (M : Machine C F K) where
  -- What was read where the arguments are accepted.
  abbrev pub Accepted : Config → List Str → K.AccountId → K.AccountId → ℕ → Type 0
  Accepted config args issuer target amount =
      (issuer_str : Str) × (target_str : Str) × (amount_str : Str) × (config.issuer_account_id
        ≡ some issuer_str)
      × (get_elem? args 1 ≡ some target_str)
      × (get_elem? args 2 ≡ some amount_str)
      × (M.parse_account issuer_str ≡ ok issuer)
      × (M.parse_account target_str ≡ ok target)
      × (parse max_u64 amount_str ≡ ok amount)

  pub account_and_amount-Accepted :
      (usage invalid : Str) (config : Config) (args : List Str) (issuer target : K.AccountId)
      (amount : ℕ) (w w' : World M.Host)
      → account_and_amount C F K M usage invalid config args w ≡ (ok (issuer, target, amount), w')
      → Accepted config args issuer target amount × (w' ≡ w)
  unfolding account_and_amount
  account_and_amount-Accepted usage invalid config args issuer target amount w w' h =
      elim (Option-cases config.issuer_account_id) [
        | inr (issuer_str, ei) ↦ elim (Option-cases (get_elem? args 1)) [
          | inr (target_str, et) ↦ elim (Option-cases (get_elem? args 2)) [
            | inr (amount_str, ea) ↦ elim (Result-cases (parse max_u64 amount_str)) [
              | inl (n, en) ↦ elim (Result-cases (M.parse_account issuer_str)) [
                | inl (i, ep) ↦ elim (Result-cases (M.parse_account target_str)) [
                  | inl (t, eq) ↦ (
                    (
                      issuer_str,
                      target_str,
                      amount_str,
                      ei,
                      et,
                      ea,
                      ground arith,
                      ground arith,
                      ground arith,
                    ),
                    ground arith,
                  )
                  | inr (x, eq) ↦ absurd (ground arith)
                ]
                | inr (x, ep) ↦ absurd (ground arith)
              ]
              | inr (x, en) ↦ absurd (ground arith)
            ]
            | inl ea ↦ absurd (ground arith)
          ]
          | inl et ↦ absurd (ground arith)
        ]
        | inl ei ↦ absurd (ground arith)
      ]

  -- Where an issuer is configured, and it and the first argument parse as accounts, an amount that fits
  -- 64 bits is read back from its print as the second argument, and nothing is done to the machine.
  pub account_and_amount-to_string :
      (usage invalid program issuer_str target_str : Str) (config : Config)
      (issuer target : K.AccountId) (amount : ℕ) (w : World M.Host)
      → config.issuer_account_id ≡ some issuer_str
      → M.parse_account issuer_str ≡ ok issuer
      → M.parse_account target_str ≡ ok target
      → amount < 2 ^ 64
      → account_and_amount C F K M usage invalid config
          (program ∷ target_str ∷ to_string amount ∷ [])
          w
        ≡ (ok (issuer, target, amount), w)
  unfolding account_and_amount
  account_and_amount-to_string usage invalid program issuer_str target_str config issuer target
        amount w configured issuer_parsed target_parsed lt =
      ground (arith, parse-to_string max_u64 amount (omega arith) (omega arith))
