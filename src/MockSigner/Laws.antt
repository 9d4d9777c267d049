-- ===== src/MockSigner/Laws.antt =====
-- What the simulated signer answers after any registrations.
use brale_miden_demo.Base.{
  ℕ, ◌+◌, ◌-◌, Option-cases, inl, inr, ◌≡◌, refl, sym, ap, ap₂, ◌∙◌, List, [], ◌∷◌, ◌++◌, Option,
  none, some, Eq, if◌then◌else◌, length, length-append, take-append_exact, drop-append_past, drop,
  replicate, ok, err, arith, append_assoc,
}
use brale_miden_demo.Text.{text}
use brale_miden_demo.Crypto
use brale_miden_demo.Crypto.{Crypto, Bytes}
use brale_miden_demo.Keystore.{signing_failed}
use brale_miden_demo.MockSigner.{
  lookup, insert, copy_from_slice, set, SimulatedMpcSigner, new, key_commitment, register_key,
  encode, sign_prehash,
}

module _ {K V : Type 0} ⦃e : Eq K⦄ where
  pub lookup-nil : (k : K) → lookup {V = V} k [] ≡ none
  unfolding lookup
  lookup-nil k = refl

  pub lookup-insert :
      (k j : K) (v : V) (m : List (K × V))
      → lookup j (insert k v m) ≡ (if e.beq j k then some v else lookup j m)
  unfolding lookup insert
  lookup-insert k j v [] = refl
  lookup-insert k j v ((i, w) ∷ m) =
      ground (arith, e.beq_iff k i, e.beq_iff j i, e.beq_iff j k, lookup-insert k j v m)

set-append_exact : (xs ys : Bytes) (y b : ℕ) → set (xs ++ (y ∷ ys)) (length xs) b ≡ xs ++ (b ∷ ys)
unfolding set
set-append_exact [] ys y b = refl
set-append_exact (x ∷ xs) ys y b = rw (set-append_exact xs ys y b)

module _ (C : Crypto) where
  -- The key that was registered last under a commitment.
  abbrev pub last_registered : C.PublicKeyCommitment → List C.SecretKey → Option C.SecretKey
  last_registered key [] = none
  last_registered key (secret ∷ earlier) =
      if C.commitment_eq.beq key (key_commitment C secret)
      then some secret
      else last_registered key earlier

  -- The signer after registering keys, the last one of the run first in the list.
  abbrev pub registered : List C.SecretKey → SimulatedMpcSigner C
  registered [] = new C
  registered (secret ∷ earlier) = (register_key C secret (registered earlier)).1

-- The steps of `encode`, over any halves of the right size.
copy_first :
    (x : Bytes) → length x ≡ 32 → copy_from_slice 0 x (replicate 65 0) ≡ x ++ replicate 33 0
unfolding copy_from_slice
copy_first x h = let e : 0 + length x ≡ 32 = omega arith in ap (λ k. x ++ drop k (replicate 65 0)) e

copy_second :
    (x y : Bytes)
    → length x ≡ 32
    → length y ≡ 32
    → copy_from_slice 32 y (x ++ replicate 33 0) ≡ x ++ (y ++ (0 ∷ []))
unfolding copy_from_slice
copy_second x y hx hy =
    let e : 32 + length y - length x ≡ 32 = omega arith in
    ap₂ (λ a b. a ++ (y ++ b)) (take-append_exact 32 x (replicate 33 0) hx)
      (drop-append_past (32 + length y) x (replicate 33 0) (omega arith)
        ∙ ap (λ k. drop k (replicate 33 0)) e)

set_last :
    (x y : Bytes) (b : ℕ)
    → length x ≡ 32
    → length y ≡ 32
    → set (x ++ (y ++ (0 ∷ []))) 64 b ≡ (x ++ y) ++ (b ∷ [])
set_last x y b hx hy =
    ap₂ (λ l (k : ℕ). set l k b) (sym (append_assoc x y (0 ∷ [])))
      (omega (arith, length-append x y))
    ∙ set-append_exact (x ++ y) [] 0 b

module _ (C : Crypto) (L : Crypto.Laws C) where
  -- The 65 bytes of a signature are its two halves and the recovery id.
  pub encode_lem : (sig : C.EcdsaSignature) → encode C sig ≡ (C.r sig ++ C.s sig) ++ (C.v sig ∷ [])
  unfolding encode
  encode_lem sig =
      let hr = L.length-r sig in
      let hs = L.length-s sig in
      rw (copy_first (C.r sig) hr, copy_second (C.r sig) (C.s sig) hr hs)
        (set_last (C.r sig) (C.s sig) (C.v sig) hr hs)

  pub length-encode : (sig : C.EcdsaSignature) → length (encode C sig) ≡ 65
  length-encode sig = rw encode_lem (
      omega (
        arith,
        L.length-r sig,
        L.length-s sig,
        length-append (C.r sig) (C.s sig),
        length-append (C.r sig ++ C.s sig) (C.v sig ∷ []),
      ))

  lookup-registered :
      (secrets : List C.SecretKey) (key : C.PublicKeyCommitment)
      → lookup ⦃e = C.commitment_eq⦄ key (registered C secrets).keys ≡ last_registered C key secrets
  unfolding register_key new
  lookup-registered [] key = lookup-nil ⦃e = C.commitment_eq⦄ key
  lookup-registered (secret ∷ earlier) key =
      lookup-insert ⦃e = C.commitment_eq⦄ (key_commitment C secret) key secret
        (registered C earlier).keys
      ∙ ap (λ rest. if C.commitment_eq.beq key (key_commitment C secret) then some secret else rest)
          (lookup-registered earlier key)

  -- After any registrations a digest is signed by the key that was registered last under the
  -- commitment asked for, into 65 bytes, and a commitment under which none was is refused by name.
  pub sign_prehash-registered :
      (secrets : List C.SecretKey) (key : C.PublicKeyCommitment) (digest : Bytes)
      → sign_prehash C (registered C secrets) key digest ≡ elim (last_registered C key secrets) [
        | none ↦ err (signing_failed (text "unknown key commitment: " ++ C.debug key))
        | some secret ↦
            let sig = C.sign_digest secret digest in ok ((C.r sig ++ C.s sig) ++ (C.v sig ∷ []))
      ]
  unfolding sign_prehash
  sign_prehash-registered secrets key digest = elim (Option-cases (last_registered C key secrets)) [
    | inl absent ↦ rw (lookup-registered, absent)
    | inr (secret, found) ↦ rw (lookup-registered, found, encode_lem)
  ]

  pub sign_prehash-last :
      (secrets : List C.SecretKey) (key : C.PublicKeyCommitment) (digest : Bytes)
      (secret : C.SecretKey)
      → last_registered C key secrets ≡ some secret
      → sign_prehash C (registered C secrets) key digest
        ≡ ok (encode C (C.sign_digest secret digest))
  unfolding sign_prehash
  sign_prehash-last secrets key digest secret last = rw (lookup-registered, last)
