-- ===== src/Programs/FullDemo/Success.antt =====
-- The demo ends without an error, with the amounts that it is to show.
use brale_miden_demo.Base.{[], ◌≡◌}
use brale_miden_demo.Crypto
use brale_miden_demo.Crypto.{Crypto}
use brale_miden_demo.Client
use brale_miden_demo.Client.{Client}
use brale_miden_demo.Ledger.Online.{Signing}
use brale_miden_demo.Programs.FullDemo.{Setup}
use brale_miden_demo.Programs.FullDemo.Creating.{IsIssuer, commitment}
use brale_miden_demo.Programs.FullDemo.Created.{Network}

module _ (C : Crypto) (K : Client C) where
  -- The ids are of three accounts, the first an issuer of the demo's kind.
  abbrev Ids : C.PublicKey → K.AccountId × K.AccountId × K.AccountId → Type 0
  Ids issuer_pk (i, a, b) = IsIssuer C K issuer_pk i × ¬ (a ≡ i) × ¬ (b ≡ i) × ¬ (b ≡ a)

  module _ (G : Signing C K) (issuer_pk a_pk b_pk : C.PublicKey) (N : Network C K G issuer_pk) where
    -- There is nothing yet of any token of the demo's kind.
    abbrev pub New : K.State → Type 0
    New s =
        (i : K.AccountId) (f : IsIssuer C K issuer_pk i)
        → (N.token i f).laws.view s ≡ record { supply = 0; vaults = []; notes = [] }

    -- The commitments of the three keys differ.
    abbrev pub Keys : Type 0
    Keys =
        ¬ (commitment C K a_pk ≡ commitment C K issuer_pk)
        × ¬ (commitment C K b_pk ≡ commitment C K issuer_pk)
        × ¬ (commitment C K b_pk ≡ commitment C K a_pk)
