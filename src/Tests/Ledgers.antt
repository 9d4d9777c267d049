-- ===== src/Tests/Ledgers.antt =====
-- A client whose state is the ledger of a token.
use brale_miden_demo.Base.{
  ℕ, ◌+◌, ◌-◌, true, false, List, [], ◌∷◌, ◌++◌, ◌≡◌, refl, ap, subst, ◌==◌, leb, map, inl, inr,
  none, some, Result, ok, err, nat_eq, if◌then◌else◌, Option-cases, arith,
}
use brale_miden_demo.Text.{text}
use brale_miden_demo.Client.{Client, Error}
use brale_miden_demo.Tests.Doubles.{crypto, client}
use brale_miden_demo.Tests.Taking.{take, take-Takes}
use brale_miden_demo.Ledger.{
  Note, Ledger, Order, issue, output, consume, paid, burnt, balance, credit, debit, Step, issued,
  sent, consumed, here,
}
use brale_miden_demo.Ledger.Laws.{Laws, Attempt, payment, burn_order}

abbrev pub owned : ℕ → List (Note ℕ) → List (Note ℕ × Unit {0})
owned id [] = []
owned id (n ∷ notes) = elim (id == n.owner) [
  | true ↦ (n, tt) ∷ owned id notes
  | false ↦ owned id notes
]

-- By the account with that id, of the token of an issuer.
abbrev pub execute : ℕ → ℕ → Order ℕ → Ledger ℕ → Result Error ℕ × Ledger ℕ
execute issuer id (issue n) l =
    if id == issuer
    then (ok 1, record l { supply = l.supply + n.amount; notes = l.notes ++ (n ∷ []) })
    else (err (text "issuer" ∷ []), l)
execute issuer id (output n) l =
    if leb n.amount (balance id l.vaults)
    then (ok 2, record l { vaults = debit id n.amount l.vaults; notes = l.notes ++ (n ∷ []) })
    else (err (text "balance" ∷ []), l)
execute issuer id (consume taken) l = elim (take id taken l.notes) [
  | none ↦ (err (text "notes" ∷ []), l)
  | some rest ↦
      if leb (burnt taken) l.supply
      then (
        ok 3,
        record {
          supply = l.supply - burnt taken;
          vaults = credit id (paid taken) l.vaults;
          notes = rest;
        },
      )
      else (err (text "supply" ∷ []), l)
]

pub execute-Step :
    (issuer id : ℕ) (o : Order ℕ) (l : Ledger ℕ) (tx : ℕ)
    → (execute issuer id o l).0 ≡ ok tx
    → Step issuer id o l (execute issuer id o l).1
execute-Step issuer id (issue n) l tx h = issued n refl (ground arith) (ground arith)
execute-Step issuer id (output n) l tx h = sent n refl (ground arith) (ground arith)
execute-Step issuer id (consume taken) l tx h = elim (Option-cases (take id taken l.notes)) [
  | inl absent ↦ absurd (ground arith)
  | inr (rest, e) ↦
      let (takes, owns) = take-Takes id taken l.notes rest e in
      consumed taken rest refl takes owns (ground arith) (ground arith)
]

pub execute-Attempt :
    (issuer id : ℕ) (o : Order ℕ) (l : Ledger ℕ) (e : Error)
    → (execute issuer id o l).0 ≡ err e
    → Attempt issuer id o l (execute issuer id o l).1
execute-Attempt issuer id (issue n) l e h = inl (ground arith)
execute-Attempt issuer id (output n) l e h = inl (ground arith)
execute-Attempt issuer id (consume taken) l e h = inl (ground arith)

map_same : (notes : List (Note ℕ)) → map (λ n. n) notes ≡ notes
map_same [] = refl
map_same (n ∷ notes) = ap (λ l. n ∷ l) (map_same notes)

abbrev total : List (ℕ × ℕ) → ℕ
total [] = 0
total ((_, n) ∷ assets) = n + total assets

-- An asset is its issuer with an amount, a note is its value, and a request is what it asks for.
abbrev pub ledger_client : ℕ → Client crypto
ledger_client issuer = record client {
  State = Ledger ℕ;
  FungibleAsset = ℕ × ℕ;
  Note = Note ℕ;
  InputNoteRecord = Note ℕ;
  TransactionRequest = Order ℕ;
  fill_bytes = λ s. ([], s);
  build_account = λ builder. ok (builder.auth_component, 0, 0, 0);
  add_account = λ account overwrite s. (ok tt, s);
  fungible_asset = λ issuer n. ok (issuer, n);
  build_mint_fungible_asset = λ asset target type s. (ok (issue (payment target asset.1)), s);
  build_pay_to_id = λ assets sender target type s. (ok (output (payment target (total assets))), s);
  create_burn_note = λ sender issuer asset attachment s. (ok (burn_order issuer asset.1), s);
  build_own_output_notes =
      λ notes. elim notes [ [] ↦ err (text "empty" ∷ []) | n ∷ rest ↦ ok (output n) ];
  build_consume_notes = λ notes. ok (consume notes);
  submit_new_transaction = execute issuer;
  sync_state = λ s. (ok tt, s);
  get_consumable_notes = λ id s. elim id [ none ↦ ok [] | some i ↦ ok (owned i s.notes) ];
  to_note = λ note. some note;
  sleep = λ seconds s. s;
  get_account = λ id s. ok (some (id, balance id s.vaults, s.supply, 0));
  get_balance = λ account issuer. ok account.1;
  get_item = λ account slot. ok (account.2, 0, 0, 0);
}

abbrev done : {A : Type 0} → A → Result Error A
done a = ok a

pub mint-asks :
    (issuer n : ℕ) (asset : ℕ × ℕ) (target : ℕ) (request : Order ℕ)
    → done (issuer, n) ≡ ok asset
    → done (issue (payment target asset.1)) ≡ ok request
    → request ≡ issue (payment target n)
mint-asks issuer n asset target request e h = ground arith

pub pay-asks :
    (issuer n : ℕ) (asset : ℕ × ℕ) (target : ℕ) (request : Order ℕ)
    → done (issuer, n) ≡ ok asset
    → done (output (payment target (asset.1 + 0))) ≡ ok request
    → request ≡ output (payment target n)
pay-asks issuer n asset target request e h = ground arith

pub burn-values :
    (issuer n : ℕ) (asset : ℕ × ℕ) (note : Note ℕ)
    → done (issuer, n) ≡ ok asset
    → done (burn_order issuer asset.1) ≡ ok note
    → note ≡ burn_order issuer n
burn-values issuer n asset note e h = ground arith

pub consume-asks :
    (notes : List (Note ℕ)) (request : Order ℕ)
    → done (consume notes) ≡ ok request
    → request ≡ consume (map (λ n. n) notes)
consume-asks notes request h = ground (arith, map_same notes)

pub output-asks :
    (note : Note ℕ) (request : Order ℕ) → done (output note) ≡ ok request → request ≡ output note
output-asks note request h = ground arith

abbrev pub ledger_laws : (k issuer : ℕ) → k ≡ issuer → Laws crypto (ledger_client k) issuer
ledger_laws k issuer same = record {
  account_eq = nat_eq;
  view = λ s. s;
  note_value = λ note. note;
  order = λ request. request;
  mint_order = λ n asset target type s request e h. mint-asks issuer n asset target request e h;
  pay_order =
      λ n asset sender target type s request e h. pay-asks issuer n asset target request e h;
  burn_value = λ n asset sender attachment s note e h. burn-values issuer n asset note e h;
  output_order = output-asks;
  consume_order = consume-asks;
  mint_view = λ asset target type s. refl;
  pay_view = λ assets sender target type s. refl;
  burn_view = λ sender asset attachment s. refl;
  submitted = λ id o l tx h.
      subst (λ i. Step i id o l (execute k id o l).1) same (execute-Step k id o l tx h);
  refused = λ id o l e h.
      subst (λ i. Attempt i id o l (execute k id o l).1) same (execute-Attempt k id o l e h);
  synced = λ s. here;
  slept = λ s. here;
}
