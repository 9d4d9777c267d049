-- ===== src/Tests/Networks.antt =====
-- The client whose state is the ledger meets what is assumed of a client and its network.
use brale_miden_demo.Base.{
  ℕ, ◌≤◌, ◌≡◌, refl, sym, subst, All, Bool-cases, ap, inl, inr, List, [], ◌∷◌, ◌==◌, some, ok,
  Result, map, nat_eq, arith,
}
use brale_miden_demo.Client.{Client, Error, public, regular_account_immutable_code, basic_wallet}
use brale_miden_demo.Operations.Notes.{notes_of}
use brale_miden_demo.Operations.Notes.Polling.{IsOk}
use brale_miden_demo.Ledger.{
  Note, Ledger, Order, issue, output, consume, Step, issued, sent, consumed, burnt, Takes,
}
use brale_miden_demo.Ledger.Alone.{own, Alone}
use brale_miden_demo.Ledger.Online.{Readable, Online, Tracked, Active, Signing, Keeping, Delivered}
use brale_miden_demo.Ledger.Shows.{Shows}
use brale_miden_demo.Programs.FullDemo.Creating.{Creates, IsIssuer}
use brale_miden_demo.Programs.FullDemo.Created.{Network}
use brale_miden_demo.Tests.Doubles.{crypto}
use brale_miden_demo.Tests.Taking.{take-found}
use brale_miden_demo.Tests.Ledgers.{owned, execute, ledger_client, ledger_laws}

notes_of-owned :
    (k id : ℕ) (notes : List (Note ℕ))
    → map (λ n. n) (notes_of crypto (ledger_client k) (owned id notes)) ≡ own nat_eq id notes
unfolding notes_of
notes_of-owned k id [] = refl
notes_of-owned k id (n ∷ notes) = ground (arith, notes_of-owned k id notes)

shown_own :
    (k id : ℕ) (l : Ledger ℕ) (found : List (Note ℕ × Unit {0}))
    → Client.get_consumable_notes (ledger_client k) (some id) l ≡ ok found
    → map (λ n. n) (notes_of crypto (ledger_client k) found) ≡ own nat_eq id l.notes
shown_own k id l found h = ground (arith, notes_of-owned k id l.notes)

pub ledger-Alone :
    (k issuer : ℕ) (same : k ≡ issuer)
    → Alone crypto (ledger_client k) issuer (ledger_laws k issuer same)
ledger-Alone k issuer same = record {
  synced_same = λ s. refl;
  slept_same = λ s. refl;
  drawn_same = λ s. refl;
  added_same = λ account overwrite s. refl;
  shown = λ id s found h some_found. shown_own k id s found h;
}

pub ledger-Shows :
    (k issuer : ℕ) (same : k ≡ issuer)
    → Shows crypto (ledger_client k) issuer (ledger_laws k issuer same)
ledger-Shows k issuer same = record {
  balance_shown = λ id s r account n found full' read. ground arith;
  supply_shown = λ s r account x y z t found full' read. ground arith;
}

ok-IsOk : (r : Result Error ℕ) (n : ℕ) → r ≡ ok n → IsOk r
ok-IsOk r n h = subst IsOk (sym h) tt

-- What the ledger permits is executed.
pub execute-IsOk :
    (issuer id : ℕ) (o : Order ℕ) (l l' : Ledger ℕ)
    → Step issuer id o l l'
    → IsOk (execute issuer id o l).0
execute-IsOk issuer id (issue n) l l' (issued m o own e) = ok-IsOk _ 1 (ground arith)
execute-IsOk issuer id (issue n) l l' (sent m o le e) = absurd (ground arith)
execute-IsOk issuer id (issue n) l l' (consumed t rest o takes owns le e) = absurd (ground arith)
execute-IsOk issuer id (output n) l l' (issued m o own e) = absurd (ground arith)
execute-IsOk issuer id (output n) l l' (sent m o le e) = ok-IsOk _ 2 (ground arith)
execute-IsOk issuer id (output n) l l' (consumed t rest o takes owns le e) = absurd (ground arith)
execute-IsOk issuer id (consume taken) l l' (issued m o own e) = absurd (ground arith)
execute-IsOk issuer id (consume taken) l l' (sent m o le e) = absurd (ground arith)
execute-IsOk issuer id (consume taken) l l' (consumed t rest o takes owns le e) =
    let same : t ≡ taken = ground arith in
    let (k, found) =
      take-found id taken l.notes l.notes rest (subst (λ x. Takes x l.notes rest) same takes)
        (subst (λ x. All (λ (n : Note ℕ). n.owner ≡ id) x) same owns) (λ x. refl) in
    let fits : burnt taken ≤ l.supply = subst (λ x. burnt x ≤ l.supply) same le in
    ok-IsOk _ 3 (ground arith)

-- Everything that is asked for is signed.
abbrev pub signing : (k : ℕ) → Signing crypto (ledger_client k)
signing k s key = Unit {0}

tracked : (k id : ℕ) (s : Ledger ℕ) → Tracked crypto (ledger_client k) id s
tracked k id s = (_, _, refl, refl)

pub active : (k id : ℕ) (s : Ledger ℕ) → Active crypto (ledger_client k) (signing k) id s
active k id s = (
  tracked k id s,
  record {
    init_seed = [];
    account_type = regular_account_immutable_code;
    storage_mode = public;
    component = basic_wallet;
    auth_component = id;
  },
  (id, 0, 0, 0),
  refl,
  refl,
  tt,
)

pub ledger-Keeping : (k : ℕ) → Keeping crypto (ledger_client k) (signing k)
ledger-Keeping k = record {
  tracked_kept = λ id s s' c t. tracked k id s';
  signs_kept = λ key s s' c g. g;
}

own-owned :
    (id : ℕ) (notes : List (Note ℕ)) (n : Note ℕ) (rest : List (Note ℕ))
    → own nat_eq id notes ≡ n ∷ rest
    → (f : Note ℕ × Unit {0}) × (fs : List (Note ℕ × Unit {0})) × (owned id notes ≡ f ∷ fs)
own-owned id [] n rest h = absurd (ground arith)
own-owned id (m ∷ notes) n rest h = elim (Bool-cases (id == m.owner)) [
  | inl e ↦ ((m, tt), owned id notes, ground arith)
  | inr e ↦ let (f, fs, found) = own-owned id notes n rest (ground arith) in (f, fs, ground arith)
]

pub delivers :
    (k id : ℕ) (s : Ledger ℕ) (n : Note ℕ) (rest : List (Note ℕ))
    → own nat_eq id s.notes ≡ n ∷ rest
    → Delivered crypto (ledger_client k) id s
delivers k id s n rest h =
    let (f, fs, e) = own-owned id s.notes n rest h in
    (0, f, fs, omega arith, tt, tt, ap (λ l. ok l) e)

abbrev pub ledger_readable : (k issuer : ℕ) → Readable crypto (ledger_client k) issuer
ledger_readable k issuer = record {
  balance_ok = λ account. tt;
  issuance_ok = λ s r account found full'. tt;
}

abbrev pub ledger_online :
    (k issuer : ℕ) (same : k ≡ issuer)
    → Online crypto (ledger_client k) issuer (ledger_laws k issuer same) (signing k)
ledger_online k issuer same = record {
  max_supply = 1000000000000;
  keeping = ledger-Keeping k;
  asset_ok = λ n h. tt;
  mint_ok = λ n asset target type s e. tt;
  pay_ok = λ n asset sender target type s e. tt;
  burn_ok = λ n asset sender s e. tt;
  output_ok = λ note. tt;
  consume_ok = λ note notes. tt;
  accepted = λ id request s l t step fits.
      execute-IsOk k id request s l (subst (λ i. Step i id request s l) (sym same) step);
  delivered = λ id s n rest t h. delivers k id s n rest h;
  reads = ledger_readable k issuer;
}

pub ledger-Creates : (k : ℕ) → Creates crypto (ledger_client k)
ledger-Creates k = record {
  sync_ok = λ s. tt;
  symbol_ok = tt;
  faucet_ok = λ t e. tt;
  wallet_ok = λ b e c. tt;
  issuer_ok = λ b t faucet e c d. tt;
  add_ok = λ b account s e drawn. tt;
  add_tracked = λ account s e. tracked k _ s;
  distinct = λ b b' x y e e' apart same. apart (ground arith);
}

-- An issuer of a key is the account with the commitment of the key as its id.
pub IsIssuer-same : (k pk i : ℕ) → IsIssuer crypto (ledger_client k) pk i → pk ≡ i
IsIssuer-same k pk i (t, faucet, b, account, et, ef, comp, auth, built, e) = ground arith

abbrev pub network : (k : ℕ) → Network crypto (ledger_client k) (signing k) k
network k = record {
  creates = ledger-Creates k;
  keeping = ledger-Keeping k;
  token = λ i f.
      let same = IsIssuer-same k k i f in
      record {
        laws = ledger_laws k i same;
        alone = ledger-Alone k i same;
        shows = ledger-Shows k i same;
        online = ledger_online k i same;
        capped = refl;
      };
}
