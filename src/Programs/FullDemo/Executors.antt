-- ===== src/Programs/FullDemo/Executors.antt =====
-- Which accounts execute the transactions of the demo, in order.
use brale_miden_demo.Base.{
  ℕ, ◌≡◌, refl, ◌∙◌, ap, [], ◌∷◌, ◌++◌, List, map, append-nil, append_assoc, inl, inr, ok,
  Result-cases, arith,
}
use brale_miden_demo.Text.{Str}
use brale_miden_demo.Crypto.{Crypto}
use brale_miden_demo.Client
use brale_miden_demo.Client.{Client}
use brale_miden_demo.Operations.Monad.{Action, ◌>>=◌, println, context, call}
use brale_miden_demo.Operations.Accounts.{create_wallet_account, deploy_issuer_account}
use brale_miden_demo.Operations.Notes.{consume_notes}
use brale_miden_demo.Operations.Tokens.{mint_tokens, burn_tokens, transfer_tokens}
use brale_miden_demo.Operations.Recorded.{Entry, Traced}
use brale_miden_demo.Operations.Recorded.Submissions.{
  R, W, mint_tokens-submits, transfer_tokens-submits,
}
use brale_miden_demo.Operations.Recorded.Burning.{burn_tokens-submits, consume_notes-submits}
use brale_miden_demo.Programs.Accounts.Reading.{read_balance_world, read_total_supply_world}
use brale_miden_demo.Programs.FullDemo.{print_lines, print_state}

module _ (C : Crypto) (K : Client C) where
  -- The accounts that executed the transactions, in order.
  abbrev pub executors : List (Entry C K) → List K.AccountId
  executors entries = map (λ (id, _, _). id) entries

  pub map_append : (xs ys : List (Entry C K)) → executors (xs ++ ys) ≡ executors xs ++ executors ys
  map_append [] ys = refl
  map_append (x ∷ xs) ys = ap (λ l. x.0 ∷ l) (map_append xs ys)

  -- An action that, if it returns without an error, has had transactions executed by these accounts.
  pub record Executed {A : Type 0} (m : Action (R C K).State A) (ids : List K.AccountId)
      : Type 0 where
    pub holds :
        (a : A) (w w' : W C K)
        → m w ≡ (ok a, w')
        → executors w'.state.1 ≡ executors w.state.1 ++ ids

  pub then-Executed :
      {A B : Type 0} (m : Action (R C K).State A) (f : A → Action (R C K).State B)
      (ids ids' : List K.AccountId)
      → Executed m ids
      → ((a : A) → Executed (f a) ids')
      → Executed (m >>= f) (ids ++ ids')
  then-Executed m f ids ids' hm hf = record {
    holds = λ b w w' h. elim (Result-cases (m w).0) [
      | inl (a, ea) ↦ ground (
        arith,
        hm.holds a w (m w).1 (λ i. (ea i, (m w).1)),
        (hf a).holds b (m w).1 w' (ground arith),
        append_assoc (executors w.state.1) ids ids',
      )
      | inr (x, ex) ↦ absurd (ground arith)
    ];
  }

  pub print_lines-Executed : (lines : List Str) → Executed (print_lines lines) []
  print_lines-Executed lines = record {
    holds = λ a w w' h. ground (arith, append-nil (executors w.state.1));
  }

  pub println-Executed : (line : Str) → Executed (println line) []
  println-Executed line = record {
    holds = λ a w w' h. ground (arith, append-nil (executors w.state.1));
  }

  pub quiet-Executed :
      {A : Type 0} (m : Action (R C K).State A)
      → ((w : W C K) → (m w).1.state.1 ≡ w.state.1)
      → Executed m []
  quiet-Executed m quiet = record {
    holds = λ a w w' h. ground (arith, quiet w, append-nil (executors w.state.1));
  }

  pub Traced-executors :
      (w w' : W C K) (entries : List (Entry C K))
      → Traced C K w w' entries
      → executors w'.state.1 ≡ executors w.state.1 ++ executors entries
  Traced-executors w w' entries traced = ap executors traced.0 ∙ map_append w.state.1 entries

  pub mint_tokens-Executed :
      (issuer target : K.AccountId) (n : ℕ)
      → Executed (mint_tokens C (R C K) issuer target n) (issuer ∷ [])
  mint_tokens-Executed issuer target n = record {
    holds = λ a w w' h.
        let (asset, request, _, _, (tx, traced)) =
          mint_tokens-submits C K issuer target n (ok a) w w' h in
        Traced-executors w w' ((issuer, request, ok tx) ∷ []) traced;
  }

  pub transfer_tokens-Executed :
      (sender recipient issuer : K.AccountId) (n : ℕ)
      → Executed (transfer_tokens C (R C K) sender recipient issuer n) (sender ∷ [])
  transfer_tokens-Executed sender recipient issuer n = record {
    holds = λ a w w' h.
        let (asset, request, _, _, (tx, traced)) =
          transfer_tokens-submits C K sender recipient issuer n (ok a) w w' h in
        Traced-executors w w' ((sender, request, ok tx) ∷ []) traced;
  }

  pub consume_notes-Executed : (id : K.AccountId) → Executed (consume_notes C (R C K) id) (id ∷ [])
  consume_notes-Executed id = record {
    holds = λ a w w' h.
        let (s, found, request, _, _, _, (tx, traced)) =
          consume_notes-submits C K id (ok a) w w' h in
        Traced-executors w w' ((id, request, ok tx) ∷ []) traced;
  }

  pub burn_tokens-Executed :
      (sender issuer : K.AccountId) (n : ℕ)
      → Executed (burn_tokens C (R C K) sender issuer n) (sender ∷ issuer ∷ [])
  burn_tokens-Executed sender issuer n = record {
    holds = λ a w w' h.
        let (asset, note, request, tx, s, found, request', tx', _, _, _, _, _, _, traced) =
          burn_tokens-submits C K sender issuer n (ok a) w w' h in
        Traced-executors w w' ((sender, request, ok tx) ∷ (issuer, request', ok tx') ∷ []) traced;
  }

  pub sync-Executed : (message : Str) → Executed (context message (call (R C K).sync_state)) []
  sync-Executed message = quiet-Executed (context message (call (R C K).sync_state)) (λ w. refl)

  pub deploy-Executed :
      (pub_key : C.PublicKey) (symbol : Str) (decimals max_supply : ℕ)
      → Executed (deploy_issuer_account C (R C K) pub_key symbol decimals max_supply) []
  unfolding deploy_issuer_account
  deploy-Executed pub_key symbol decimals max_supply = record {
    holds = λ a w w' h. ground (arith, append-nil (executors w.state.1));
  }

  pub wallet-Executed :
      (pub_key : C.PublicKey) (mode : Client.AccountStorageMode)
      → Executed (create_wallet_account C (R C K) pub_key mode) []
  unfolding create_wallet_account
  wallet-Executed pub_key mode = record {
    holds = λ a w w' h. ground (arith, append-nil (executors w.state.1));
  }

  pub print_state-Executed :
      (issuer a b : K.AccountId) → Executed (print_state C (R C K) issuer a b) []
  unfolding print_state
  print_state-Executed issuer a b = record {
    holds = λ u w w' h. ground (
      arith,
      read_total_supply_world C (R C K) issuer w,
      read_balance_world C (R C K) a issuer w,
      read_balance_world C (R C K) b issuer w,
      append-nil (executors w.state.1),
    );
  }
