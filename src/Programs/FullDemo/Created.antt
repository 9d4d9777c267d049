-- ===== src/Programs/FullDemo/Created.antt =====
-- Steps 1 and 2 of the demo end without an error, and leave three accounts that are tracked.
use brale_miden_demo.Base.{false, ◌≡◌, refl, sym, subst, ok, inl, inr, arith}
use brale_miden_demo.Text.{Str, text}
use brale_miden_demo.Crypto.{Crypto}
use brale_miden_demo.Client
use brale_miden_demo.Client.{Client, Error}
use brale_miden_demo.Operations.Monad.{World, Action, ◌>>=◌, ◌>>◌, pure, println, context, call}
use brale_miden_demo.Operations.Accounts.{create_wallet_account, deploy_issuer_account}
use brale_miden_demo.Operations.Calls.{Kept, drawn, added, synced}
use brale_miden_demo.Ledger.Laws.{Laws}
use brale_miden_demo.Ledger.Alone.{Alone}
use brale_miden_demo.Ledger.Online.{Online, Signing, Keeping}
use brale_miden_demo.Ledger.Online.Completing.{IsOk-ok}
use brale_miden_demo.Programs.FullDemo.{heading, create_accounts}
use brale_miden_demo.Ledger.Shows.{Shows}
use brale_miden_demo.Programs.FullDemo.Quiet.{deploy-Made, wallet-Made}
use brale_miden_demo.Programs.FullDemo.Creating.{
  Creates, IsIssuer, MadeOf, commitment, deploy_issuer_account-ok, create_wallet_account-ok,
}

-- A token on which nobody else acts, over a client that follows its ledger, with the cap that its
-- faucet was made with.
pub record Token (C : Crypto) (K : Client C) (G : Signing C K) (i : K.AccountId) : Type 0 where
  pub laws : Laws C K i
  pub alone : Alone C K i laws
  pub shows : Shows C K i laws
  pub online : Online C K i laws G
  pub capped : online.max_supply ≡ 1000000000000

-- A client that creates accounts, and on whose token of the demo's kind, of an issuer of that key,
-- nobody else acts.
pub record Network (C : Crypto) (K : Client C) (G : Signing C K) (issuer_pk : C.PublicKey)
    : Type 0 where
  pub creates : Creates C K
  pub keeping : Keeping C K G
  pub token : (i : K.AccountId) → IsIssuer C K issuer_pk i → Token C K G i

module _ (C : Crypto) (K : Client C) (G : Signing C K) (issuer_pk a_pk b_pk : C.PublicKey)
    (N : Network C K G issuer_pk) where
  -- What the client asks to be signed for one of the three keys is signed.
  abbrev pub SignsAll : K.State → Type 0
  SignsAll s =
      G s (commitment C K issuer_pk) × G s (commitment C K a_pk) × G s (commitment C K b_pk)

  pub SignsAll-kept : Kept C K SignsAll
  SignsAll-kept s s' c (i, a, b) = (
    N.keeping.signs_kept (commitment C K issuer_pk) s s' c i,
    N.keeping.signs_kept (commitment C K a_pk) s s' c a,
    N.keeping.signs_kept (commitment C K b_pk) s s' c b,
  )

  deploy_keeps :
      (w : World K.State)
      → SignsAll w.state
      → SignsAll (deploy_issuer_account C K issuer_pk (text "USDB") 6 1000000000000 w).1.state
  deploy_keeps w h =
      let s = (K.fill_bytes w.state).1 in
      let h' : SignsAll s = SignsAll-kept w.state s (drawn refl) h in
      elim (deploy-Made C K issuer_pk (text "USDB") 6 1000000000000 w) [
        | inl e ↦ subst SignsAll (sym e) h'
        | inr (account, e) ↦
            subst SignsAll (sym e)
              (SignsAll-kept s (K.add_account account false s).1 (added account false refl) h')
      ]

  wallet_keeps :
      (P : K.State → Type 0) (kept : Kept C K P) (pub_key : C.PublicKey)
      (mode : Client.AccountStorageMode) (w : World K.State)
      → P w.state
      → P (create_wallet_account C K pub_key mode w).1.state
  wallet_keeps P kept pub_key mode w h =
      let s = (K.fill_bytes w.state).1 in
      let h' : P s = kept w.state s (drawn refl) h in
      elim (wallet-Made C K pub_key mode w) [
        | inl e ↦ subst P (sym e) h'
        | inr (account, e) ↦
            subst P (sym e) (kept s (K.add_account account false s).1 (added account false refl) h')
      ]

  -- An action that ends without an error from a state with one property, with a result and a state with
  -- the other.
  pub record Yields {T : Type 0} (m : Action K.State T) (P : K.State → Type 0)
      (Q : T → K.State → Type 0) : Type 0 where
    pub holds :
        (w : World K.State)
        → P w.state
        → (x : T) × (w' : World K.State) × (m w ≡ (ok x, w')) × Q x w'.state

  then-Yields :
      {T U : Type 0} (m : Action K.State T) (f : T → Action K.State U) (P : K.State → Type 0)
      (Q : T → K.State → Type 0) (R : U → K.State → Type 0)
      → Yields m P Q
      → ((x : T) → Yields (f x) (Q x) R)
      → Yields (m >>= f) P R
  then-Yields m f P Q R hm hf = record {
    holds = λ w h.
        let (x, v, em, q) = hm.holds w h in
        let (y, w', ef, r) = (hf x).holds v q in (y, w', ground arith, r);
  }

  quiet-Yields :
      {T U : Type 0} (x : T) (m : Action K.State T) (k : Action K.State U) (P : K.State → Type 0)
      (R : U → K.State → Type 0)
      → ((w : World K.State) → (m w).0 ≡ ok x)
      → ((w : World K.State) → (m w).1.state ≡ w.state)
      → Yields k P R
      → Yields (m >> k) P R
  quiet-Yields x m k P R succeeds quiet hk =
      then-Yields m (λ _. k) P (λ _. P) R
        (record {
          holds = λ w h. (x, (m w).1, (λ i. (succeeds w i, (m w).1)), subst P (sym (quiet w)) h);
        })
        (λ _. hk)

  line_then :
      {U : Type 0} (line : Str) (k : Action K.State U) (P : K.State → Type 0)
      (R : U → K.State → Type 0)
      → Yields k P R
      → Yields (println line >> k) P R
  line_then line k P R hk = quiet-Yields tt (println line) k P R (λ w. refl) (λ w. refl) hk

  heading_then :
      {U : Type 0} (line : Str) (k : Action K.State U) (P : K.State → Type 0)
      (R : U → K.State → Type 0)
      → Yields k P R
      → Yields (heading line >> k) P R
  heading_then line k P R hk = quiet-Yields tt (heading line) k P R (λ w. refl) (λ w. refl) hk

  deploy-Yields :
      Yields
        (deploy_issuer_account C K issuer_pk (text "USDB") 6 1000000000000)
        SignsAll
        (λ x s. (IsIssuer C K issuer_pk (K.account_id x) × MadeOf C K issuer_pk x s) × SignsAll s)
  deploy-Yields = record {
    holds = λ w h.
        let (x, w', e, issuer, made) = deploy_issuer_account-ok C K N.creates issuer_pk w in
        (x, w', e, ((issuer, made), subst (λ p. SignsAll p.1.state) e (deploy_keeps w h)));
  }

  wallet-Yields :
      (P : K.State → Type 0) (kept : Kept C K P) (pub_key : C.PublicKey)
      (mode : Client.AccountStorageMode)
      → Yields (create_wallet_account C K pub_key mode) P (λ y s. P s × MadeOf C K pub_key y s)
  wallet-Yields P kept pub_key mode = record {
    holds = λ w h.
        let (y, w', e, made, _) = create_wallet_account-ok C K N.creates pub_key mode w in
        (y, w', e, (subst (λ p. P p.1.state) e (wallet_keeps P kept pub_key mode w h), made));
  }

  MadeOf-kept : (pub_key : C.PublicKey) (y : K.Account) → Kept C K (MadeOf C K pub_key y)
  MadeOf-kept pub_key y s s' c made =
      (made.0, made.1, made.2, N.keeping.tracked_kept (K.account_id y) s s' c made.3)

  module _ (x : K.Account) where
    -- What is known after the deployment, after one wallet, and after two.
    abbrev pub One : K.State → Type 0
    One s = (IsIssuer C K issuer_pk (K.account_id x) × MadeOf C K issuer_pk x s) × SignsAll s

    abbrev pub Two : K.Account → K.State → Type 0
    Two y s = One s × MadeOf C K a_pk y s

    abbrev pub Three : K.Account → K.Account → K.State → Type 0
    Three y z s = Two y s × MadeOf C K b_pk z s

    One-kept : Kept C K One
    One-kept s s' c one =
        ((one.0.0, MadeOf-kept issuer_pk x s s' c one.0.1), SignsAll-kept s s' c one.1)

    Two-kept : (y : K.Account) → Kept C K (Two y)
    Two-kept y s s' c two = (One-kept s s' c two.0, MadeOf-kept a_pk y s s' c two.1)

    Three-kept : (y z : K.Account) → Kept C K (Three y z)
    Three-kept y z s s' c three = (Two-kept y s s' c three.0, MadeOf-kept b_pk z s s' c three.1)

  -- The accounts that steps 1 and 2 leave.
  abbrev pub Created : K.Account × K.Account × K.Account → K.State → Type 0
  Created (x, y, z) s = Three x y z s

  sync-Yields :
      (message : Str) (x y z : K.Account)
      → Yields
          (context message (call K.sync_state)
            >> pure {A = K.Account × K.Account × K.Account} (x, y, z))
          (Three x y z)
          Created
  sync-Yields message x y z = record {
    holds = λ w three.
        let (u, e) = IsOk-ok (K.sync_state w.state).0 (N.creates.sync_ok w.state) in
        let s = (K.sync_state w.state).1 in
        (
          (x, y, z),
          record w { state = s },
          ground arith,
          Three-kept x y z w.state s (synced refl) three,
        );
  }

  pub create_accounts-Yields :
      (mode : Client.AccountStorageMode)
      → Yields (create_accounts C K issuer_pk a_pk b_pk mode) SignsAll Created
  unfolding create_accounts
  create_accounts-Yields mode = heading_then _ _ SignsAll Created (
      then-Yields _ _ SignsAll One Created deploy-Yields (λ x. line_then _ _ (One x) Created (
        heading_then _ _ (One x) Created (
          then-Yields _ _ (One x) (Two x) Created (wallet-Yields (One x) (One-kept x) a_pk mode)
            (λ y. line_then _ _ (Two x y) Created (
              then-Yields _ _ (Two x y) (Three x y) Created
                (wallet-Yields (Two x y) (Two-kept x y) b_pk mode)
                (λ z. line_then _ _ (Three x y z) Created (sync-Yields _ x y z))))))))
