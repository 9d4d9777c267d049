-- ===== src/Display/SignerTable.antt =====
-- `print_signer_table`. Slicing a text off a character boundary panics; what was printed before
-- stays printed.
pub mod Laws
use Prim.Native.Char.{code}
use brale_miden_demo.Base.{
  ℕ, ◌+◌, ◌-◌, ◌%◌, ◌^◌, Bool, List, [], ◌∷◌, ◌++◌, Option, none, some, length, ltb, leb,
  if◌then◌else◌, Panics, returned, panicked,
}
use brale_miden_demo.Text.{Str, text, len, pad, split_at}
use brale_miden_demo.Decimal.{to_string}
use brale_miden_demo.Display.Layout.{separator, row}

-- `(&str, &str, bool)`: the name, the commitment in hexadecimal, and whether it has signed.
pub record Signer : Type 0 where
  pub name : Str
  pub commitment_hex : Str
  pub signed : Bool

abbrev ellipsis : ℕ
ellipsis = code "…"

-- The first six and the last four bytes of a commitment of more than twelve. `none` is a panic.
unfoldable pub commit_display : Str → Option Str
commit_display hex =
    let shown : Option Str = elim (split_at hex 6) [
      | none ↦ none
      | some (first, _) ↦ elim (split_at hex (len hex - 4)) [
        | none ↦ none
        | some (_, last) ↦ some (first ++ (ellipsis ∷ last))
      ]
    ] in
    if ltb 12 (len hex) then shown else some hex

unfoldable pub status_text : Bool → Str
status_text signed = if signed then text "✓ Signed" else text "— Pending"

unfoldable pub signer_row : Str → Str → Str → Str
signer_row name status commit = row (pad 9 name) (pad 11 status) (pad 13 commit)

-- `signed_count += 1` on a `u32`.
abbrev count_signed_u32 : ℕ → Bool → ℕ
count_signed_u32 signed_count signed = if signed then (signed_count + 1) % 2 ^ 32 else signed_count

-- The loop: the lines printed and the final `signed_count`, or a panic.
unfoldable pub signer_rows : List Signer → ℕ → List Str × Panics ℕ
signer_rows [] signed_count = ([], returned signed_count)
signer_rows (s ∷ signers) signed_count =
    let (lines, end) = signer_rows signers (count_signed_u32 signed_count s.signed) in
    elim (commit_display s.commitment_hex) [
      | none ↦ ([], panicked)
      | some commit ↦ (signer_row s.name (status_text s.signed) commit ∷ lines, end)
    ]

unfoldable pub summary : ℕ → ℕ → ℕ → Str
summary signed_count total threshold =
    let counts = text "Threshold: " ++ (to_string signed_count ++ (text "/" ++ to_string total)) in
    if leb threshold signed_count
    then counts ++ text " met ✓"
    else counts ++ (text " (need " ++ (to_string threshold ++ text ")"))

abbrev sep_top : Str
sep_top = separator (code "┌") (code "┬") (code "┐") 10 12 14

abbrev sep_mid : Str
sep_mid = separator (code "├") (code "┼") (code "┤") 10 12 14

abbrev sep_bot : Str
sep_bot = separator (code "└") (code "┴") (code "┘") 10 12 14

abbrev header : List Str
header = sep_top ∷ signer_row (text "Signer") (text "Status") (text "Commitment") ∷ sep_mid ∷ []

unfoldable pub print_signer_table : List Signer → ℕ → List Str × Panics (Unit {0})
print_signer_table signers threshold =
    let (lines, end) = signer_rows signers 0 in
    elim end [
      | returned signed_count ↦ (
        header
            ++ (lines ++ (sep_bot ∷ summary signed_count (length signers % 2 ^ 32) threshold ∷ [])),
        returned tt,
      )
      | panicked ↦ (header ++ lines, panicked)
    ]
