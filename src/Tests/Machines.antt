-- ===== src/Tests/Machines.antt =====
-- The machine that the programs are run on.
use brale_miden_demo.Base.{ℕ, [], ◌∷◌, some, none, ok, err, length}
use brale_miden_demo.Text.{Str, text}
use brale_miden_demo.Config.{Env, not_present}
use brale_miden_demo.Config.Laws.{set_var}
use brale_miden_demo.Keystore
use brale_miden_demo.Keystore.{get_signature}
use brale_miden_demo.MockSigner.{as_signer}
use brale_miden_demo.MockSigner.Laws.{registered}
use brale_miden_demo.Operations.Recorded.Submissions.{R}
use brale_miden_demo.Programs.Setup.{Machine, Prepared}
use brale_miden_demo.Tests.Doubles.{Store, crypto, one_key, client}

abbrev pub new_store : Store
new_store = record { syncs = 0; account = none }

-- An account id is the length of its text.
abbrev pub machine : Machine crypto one_key client
machine = record {
  Host = ℕ;
  Endpoint = Str;
  parse_account = λ s. ok (length s);
  new_secret_key = λ h. (5, h);
  endpoint = λ s. ok s;
  open_keystore = λ path h. (ok none, h);
  add_key = λ store key h. (ok (some key), h);
  build_client = λ endpoint path keystore h. (ok new_store, h);
}

abbrev pub recorded_machine : Machine crypto one_key (R crypto client)
recorded_machine = record {
  Host = ℕ;
  Endpoint = Str;
  parse_account = λ s. ok (length s);
  new_secret_key = λ h. (5, h);
  endpoint = λ s. ok s;
  open_keystore = λ path h. (ok none, h);
  add_key = λ store key h. (ok (some key), h);
  build_client = λ endpoint path keystore h. (ok (new_store, []), h);
}

abbrev pub env : Env
env = set_var "ISSUER_ACCOUNT_ID" (text "ab") (λ name. err not_present)

abbrev pub prepared : Prepared crypto one_key client machine
prepared = record {
  public_key = 105;
  keystore = Keystore.new crypto one_key (some 5) (as_signer crypto (registered crypto (5 ∷ [])));
  client = new_store;
}

abbrev pub recorded_prepared : Prepared crypto one_key (R crypto client) recorded_machine
recorded_prepared = record {
  public_key = 105;
  keystore = Keystore.new crypto one_key (some 5) (as_signer crypto (registered crypto (5 ∷ [])));
  client = (new_store, []);
}
