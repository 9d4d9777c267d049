-- ===== src/Helpers/Components/Laws.antt =====
-- What the made component depends on.
use brale_miden_demo.Base.{
  ◌≡◌, ◌⊎◌, refl, sym, subst, Bool, Option, none, ap, true, false, List, [], ◌∷◌, ◌++◌, some, All,
  inl, inr, ok, returned, Bool-cases, Option-cases, Result-cases, Panics-cases, arith,
}
use brale_miden_demo.Crypto.{Crypto, Bytes}
use brale_miden_demo.Client.{Client, AccountType, regular_account_immutable_code, fungible_faucet}
use brale_miden_demo.Keystore.{FilesystemKeyStore}
use brale_miden_demo.Helpers.Toolchain.{Toolchain}
use brale_miden_demo.Helpers.Components.{
  same_type, type_set, AccountCreationConfig, find_metadata, supported,
  account_component_from_package,
}

-- An account type is in a list.
abbrev pub Among : AccountType → List AccountType → Type 0
Among t [] = ⊥
Among t (u ∷ types) = (u ≡ t) ⊎ Among t types

same_type-eq : (a b : AccountType) → same_type a b ≡ true → a ≡ b
same_type-eq regular_account_immutable_code regular_account_immutable_code h = refl
same_type-eq regular_account_immutable_code fungible_faucet h = absurd (ground arith)
same_type-eq regular_account_immutable_code (AccountType.other b) h = absurd (ground arith)
same_type-eq fungible_faucet regular_account_immutable_code h = absurd (ground arith)
same_type-eq fungible_faucet fungible_faucet h = refl
same_type-eq fungible_faucet (AccountType.other b) h = absurd (ground arith)
same_type-eq (AccountType.other a) regular_account_immutable_code h = absurd (ground arith)
same_type-eq (AccountType.other a) fungible_faucet h = absurd (ground arith)
same_type-eq (AccountType.other a) (AccountType.other b) h = ground arith

same_type_refl : (a : AccountType) → same_type a a ≡ true
same_type_refl regular_account_immutable_code = refl
same_type_refl fungible_faucet = refl
same_type_refl (AccountType.other a) = ground arith

type_set-Among :
    (types : List AccountType) (t : AccountType)
    → (type_set types t ≡ true → Among t types) × (Among t types → type_set types t ≡ true)
type_set-Among [] t = (λ h. absurd (ground arith), λ h. absurd h)
type_set-Among (u ∷ types) t = (
  λ h. elim (Bool-cases (same_type u t)) [
    | inl same ↦ inl (same_type-eq u t same)
    | inr other ↦ inr ((type_set-Among types t).0 (ground arith))
  ],
  λ h. elim h [
    | inl e ↦
        let same : same_type u t ≡ true = subst (λ x. same_type u x ≡ true) e (same_type_refl u) in
        ground arith
    | inr rest ↦ ground (arith, (type_set-Among types t).1 rest)
  ],
)

module _ (C : Crypto) (F : FilesystemKeyStore C) (K : Client C) (T : Toolchain C F K) where
  abbrev Sections : Type 0
  Sections = List (T.SectionId × Bytes)

  -- A metadata section holds the bytes, and no section before it is one.
  abbrev pub FirstMetadata : Sections → Bytes → Type 0
  FirstMetadata sections bytes =
      (before : Sections) × (id : T.SectionId) × (after : Sections) × (sections
        ≡ before ++ ((id, bytes) ∷ after))
      × (T.section_eq id T.account_component_metadata ≡ true)
      × All (λ s. T.section_eq s.0 T.account_component_metadata ≡ false) before

  find_metadata-FirstMetadata :
      (sections : Sections) (bytes : Bytes)
      → find_metadata C F K T sections ≡ some bytes
      → FirstMetadata sections bytes
  unfolding find_metadata
  find_metadata-FirstMetadata [] bytes h = absurd (ground arith)
  find_metadata-FirstMetadata ((id, data') ∷ sections) bytes h =
      elim (Bool-cases (T.section_eq id T.account_component_metadata)) [
        | inl this ↦ ([], id, sections, ground arith, this, tt)
        | inr other ↦
            let (before, id', after, e, matches, skipped) =
              find_metadata-FirstMetadata sections bytes (ground arith) in
            (
              (id, data') ∷ before,
              id',
              after,
              ap (λ l. (id, data') ∷ l) e,
              matches,
              (other, skipped),
            )
      ]

  -- The account types that a configuration supports: those that it lists, or without a list the one
  -- default.
  abbrev pub Supports : Option (List AccountType) → AccountType → Type 0
  Supports (some types) t = Among t types
  Supports none t = t ≡ regular_account_immutable_code

  -- A set is of the supported types.
  abbrev pub IsSupport : Option (List AccountType) → (AccountType → Bool) → Type 0
  IsSupport config set =
      (t : AccountType) → (set t ≡ true → Supports config t) × (Supports config t → set t ≡ true)

  supported-IsSupport :
      (config : Option (List AccountType)) → IsSupport config (supported C F K T config)
  unfolding supported
  supported-IsSupport (some types) t = type_set-Among types t
  supported-IsSupport none t = (
    λ h. only_one t ((type_set-Among (regular_account_immutable_code ∷ []) t).0 h),
    λ h. (type_set-Among (regular_account_immutable_code ∷ []) t).1 (inl (sym h)),
  )
    where
      only_one :
          (t : AccountType)
          → Among t (regular_account_immutable_code ∷ [])
          → t ≡ regular_account_immutable_code
      only_one t (inl e) = sym e
      only_one t (inr none') = absurd none'

  -- A component that is returned was made of the package's library, the configured storage slots, the
  -- metadata in the first metadata section, and the set of just the account types that the
  -- configuration lists, or of the immutable regular account alone without a list; the state is
  -- unchanged.
  pub account_component_from_package-FirstMetadata :
      {S : Type 0} (package' : T.Package) (config : AccountCreationConfig C F K T)
      (component : T.AccountComponent) (s s' : S)
      → account_component_from_package C F K T package' config s ≡ (returned (ok component), s')
      → (bytes : Bytes) × (metadata : T.Metadata) × (library : T.Library)
        × (base : T.AccountComponent) × (types : AccountType → Bool) × FirstMetadata
            (T.sections package')
            bytes
        × (T.metadata_from_bytes bytes ≡ ok metadata)
        × (T.unwrap_library package' ≡ returned library)
        × (T.new_component library config.storage_slots ≡ ok base)
        × (component ≡ T.with_supported_types (T.with_metadata base metadata) types)
        × IsSupport config.supported_types types
        × (s' ≡ s)
  unfolding account_component_from_package
  account_component_from_package-FirstMetadata package' config component s s' h =
      elim (Option-cases (find_metadata C F K T (T.sections package'))) [
        | inl absent ↦ absurd (ground arith)
        | inr (bytes, found) ↦ elim (Result-cases (T.metadata_from_bytes bytes)) [
          | inl (metadata, em) ↦ elim (Panics-cases (T.unwrap_library package')) [
            | inl (library, el) ↦
                elim (Result-cases (T.new_component library config.storage_slots)) [
                  | inl (base, eb) ↦ (
                    bytes,
                    metadata,
                    library,
                    base,
                    supported C F K T config.supported_types,
                    find_metadata-FirstMetadata (T.sections package') bytes found,
                    em,
                    el,
                    eb,
                    ground arith,
                    supported-IsSupport config.supported_types,
                    ground arith,
                  )
                  | inr (x, eb) ↦ absurd (ground arith)
                ]
            | inr el ↦ absurd (ground arith)
          ]
          | inr (x, em) ↦ absurd (ground arith)
        ]
      ]
