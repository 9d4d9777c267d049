-- ===== src/Tests/Doubles.antt =====
-- Small stand-ins for the libraries that the sources call, which meet what is assumed of them.
use brale_miden_demo.Base.{
  ℕ, ◌+◌, ◌*◌, ◌/◌, ◌%◌, ◌^◌, ◌≡◌, refl, true, false, Bool, [], ◌∷◌, Option, none, some, Result, ok,
  err, length, replicate, nat_eq, ltb, leb, ◌==◌, if◌then◌else◌, arith,
}
use brale_miden_demo.Text.{Str, text}
use brale_miden_demo.Crypto
use brale_miden_demo.Crypto.{Crypto, Bytes}
use brale_miden_demo.Keystore.{FilesystemKeyStore}
use brale_miden_demo.Multisig.{Psm}
use brale_miden_demo.Client.{Client, Component, basic_wallet, basic_fungible_faucet, full}
use brale_miden_demo.Operations.Deployment
use brale_miden_demo.Operations.Deployment.{modulus}

abbrev hex_digit : ℕ → ℕ
hex_digit n = if ltb n 10 then b'0' + n else 87 + n

abbrev pub hex : Bytes → Str
hex [] = []
hex (b ∷ bytes) = hex_digit (b / 16) ∷ hex_digit (b % 16) ∷ hex bytes

length-hex : (bytes : Bytes) → length (hex bytes) ≡ 2 * length bytes
length-hex [] = refl
length-hex (b ∷ bytes) = omega (arith, length-hex bytes)

abbrev first : Bytes → ℕ
first [] = 0
first (b ∷ bytes) = b

abbrev parse_first : Bytes → ℕ → Result Str ℕ
parse_first [] v = err (text "empty")
parse_first (b ∷ bytes) v = ok b

-- Keys, words and signatures are numbers; a signature is the key and the digest's first byte added up.
abbrev pub crypto : Crypto
crypto = record {
  Word = ℕ;
  PublicKeyCommitment = ℕ;
  SecretKey = ℕ;
  PublicKey = ℕ;
  EcdsaSignature = ℕ;
  Signature = ℕ;
  AuthSecretKey = ℕ;
  SigningInputs = ℕ;
  public_key = λ key. key + 100;
  to_bytes = λ key. key ∷ [];
  to_commitment = λ key. key;
  commitment_of = λ word. word;
  commitment_eq = nat_eq;
  debug = λ key. key ∷ [];
  word_bytes = λ word. word ∷ replicate 31 0;
  keccak256 = λ bytes. bytes;
  sign_digest = λ key digest. key + first digest;
  r = λ sig. sig ∷ replicate 31 0;
  s = λ sig. replicate 32 0;
  v = λ sig. 0;
  from_sec1_bytes = parse_first;
  ecdsa_signature = λ sig. sig;
  ecdsa_key = λ key. key;
  sign = λ key word. key + word;
  inputs_commitment = λ inputs. inputs;
  hex_encode = hex;
}

pub crypto-Laws : Crypto.Laws crypto
crypto-Laws = record {
  length-word_bytes = λ word. refl;
  length-r = λ sig. refl;
  length-s = λ sig. refl;
  from_sec1_bytes_own = λ sig. refl;
  sign-ecdsa_key = λ key word. refl;
  length-hex_encode = length-hex;
}

-- A store of one key at most, which fails on the commitment 13.
abbrev pub one_key : FilesystemKeyStore crypto
one_key = record {
  Store = Option ℕ;
  KeyStoreError = Str;
  get_key = λ store key.
      if key == 13
      then err (text "unreadable")
      else elim store [ none ↦ ok none | some k ↦ if key == k + 100 then ok (some k) else ok none ];
}

abbrev pub psm : Psm crypto
psm = record {
  SignatureScheme = Bool;
  ecdsa = true;
  SchemeSecretKey = ℕ;
  ecdsa_secret = λ key. key;
  EcdsaPsmKeyStore = ℕ;
  Rng = ℕ;
  generate = λ rng. (rng, rng + 1);
  from_secret = λ key. key;
  store_public_key = λ key. key + 100;
  clone_ecdsa_secret_key = λ key. key;
  store_scheme = λ key. true;
  store_commitment = λ key. key + 100;
  store_commitment_hex = λ key. text "0x";
  store_sign_hex = λ key message. text "0x";
  store_secret_key = λ key. key;
  store_public_key_hex = λ key. none;
}

-- An account is its id with the metadata that it holds.
abbrev pub Account : Type 0
Account = ℕ × ℕ × ℕ × ℕ

pub record Store : Type 0 where
  pub syncs : ℕ
  pub account : Option Account

abbrev built : Component (ℕ × ℕ × ℕ) → Account
built basic_wallet = (1, 0, 0, 0)
built (basic_fungible_faucet (t, decimals, max_supply)) = (2, max_supply, decimals % modulus, t)

-- A client that shows one note for every account from the second sync on.
abbrev pub client : Client crypto
client = record {
  State = Store;
  AccountId = ℕ;
  Account = Account;
  AccountRecord = Account;
  FungibleAsset = ℕ;
  TokenSymbol = ℕ;
  FaucetComponent = ℕ × ℕ × ℕ;
  Felt = ℕ;
  SlotName = Bool;
  Note = ℕ;
  NoteAttachment = Unit {0};
  InputNoteRecord = ℕ;
  NoteRelevance = Unit {0};
  TransactionRequest = ℕ;
  TransactionId = ℕ;
  SyncSummary = Unit {0};
  display_account = λ id. id ∷ [];
  display_transaction = λ id. id ∷ [];
  fill_bytes = λ s. (replicate 32 7, s);
  build_account = λ builder. ok (built builder.component);
  account_id = λ account. account.0;
  add_account = λ account overwrite s. (ok tt, record s { account = some account });
  token_symbol = λ symbol. ok (length symbol);
  token_symbol_of = λ felt. ok felt;
  felt = λ n. n % modulus;
  as_int = λ felt. felt;
  faucet_component = λ t decimals max_supply. ok (t, decimals, max_supply);
  fungible_asset =
      λ issuer amount. if ltb amount (2 ^ 63) then ok amount else err (text "amount" ∷ []);
  build_mint_fungible_asset = λ asset target type s. (ok (asset + target), s);
  build_pay_to_id = λ assets sender target type s. (ok (length assets + target), s);
  default_attachment = tt;
  create_burn_note = λ sender issuer asset attachment s. (ok asset, s);
  build_own_output_notes = λ notes. ok (length notes);
  build_consume_notes = λ notes. ok (length notes);
  submit_new_transaction = λ id request s. (ok (id + request), s);
  sync_state = λ s. (ok tt, record s { syncs = s.syncs + 1 });
  get_consumable_notes = λ id s. if leb 2 s.syncs then ok ((7, tt) ∷ []) else ok [];
  to_note = λ note. some note;
  sleep = λ seconds s. s;
  get_account = λ id s. elim s.account [
    | none ↦ ok none
    | some account ↦ if account.0 == id then ok (some account) else ok none
  ];
  account_data = λ account. full account;
  get_balance = λ account issuer. ok 0;
  get_item =
      λ account slot. if slot then ok (account.1, account.2, account.3, 0) else ok (0, 0, 0, 0);
  faucet_sysdata_slot = false;
  metadata_slot = true;
}

pub client-Laws : Deployment.Laws crypto client
client-Laws = record {
  as_int-felt = λ n. refl;
  symbol_felt = λ t. t;
  token_symbol_of-symbol_felt = λ t. refl;
  faucet_slots = λ t decimals max_supply faucet builder account made component built'. ground arith;
  wallet_vault = λ builder account issuer component built'. refl;
  add_account-tracked = λ account s added. (account, ground arith, refl);
}
