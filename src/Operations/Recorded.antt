-- ===== src/Operations/Recorded.antt =====
-- A client that keeps a record of every submission that was made, over any client, whatever its answer,
-- and what that record says of an operation.
pub mod Submissions
pub mod Consumptions
pub mod Burning
use brale_miden_demo.Base.{List, [], ◌∷◌, ◌++◌, ◌≡◌, map, Result, ok, err}
use brale_miden_demo.Text.{Str}
use brale_miden_demo.Crypto.{Crypto}
use brale_miden_demo.Client.{Client, Error}
use brale_miden_demo.Operations.Monad.{World}
use brale_miden_demo.Operations.Links.{transaction_link}

module _ (C : Crypto) (K : Client C) where
  -- The executing account and the request of a submission, and the answer: the transaction's id, or an
  -- error.
  abbrev pub Entry : Type 0
  Entry = K.AccountId × K.TransactionRequest × Result Error K.TransactionId

  abbrev pub Recording : Type 0
  Recording = K.State × List Entry

  abbrev keep : {A : Type 0} → (K.State → A × K.State) → Recording → A × Recording
  keep f (s, history) = let (a, s') = f s in (a, (s', history))

  abbrev pub recorded : Client C
  recorded = record K {
    State = Recording;
    fill_bytes = keep K.fill_bytes;
    add_account = λ account overwrite. keep (K.add_account account overwrite);
    build_mint_fungible_asset =
        λ asset target type. keep (K.build_mint_fungible_asset asset target type);
    build_pay_to_id =
        λ assets sender target type. keep (K.build_pay_to_id assets sender target type);
    create_burn_note =
        λ sender issuer asset attachment. keep (K.create_burn_note sender issuer asset attachment);
    submit_new_transaction = λ id request (s, history).
        let (r, s') = K.submit_new_transaction id request s in
        (r, (s', history ++ ((id, request, r) ∷ [])));
    sync_state = keep K.sync_state;
    get_consumable_notes = λ id (s, _). K.get_consumable_notes id s;
    sleep = λ seconds (s, history). (K.sleep seconds s, history);
    get_account = λ id (s, _). K.get_account id s;
  }

  -- The links of the submissions that were answered with a transaction.
  abbrev pub links : List Entry → List Str
  links [] = []
  links ((id, request, ok tx) ∷ entries) = transaction_link C recorded tx ∷ links entries
  links ((id, request, err e) ∷ entries) = links entries

  -- Between two worlds just these submissions were made, and for each that was answered with a
  -- transaction a link was printed, and nothing else.
  abbrev pub Traced : World Recording → World Recording → List Entry → Type 0
  Traced w w' entries = (w'.state.1 ≡ w.state.1 ++ entries) × (w'.out ≡ w.out ++ links entries)
