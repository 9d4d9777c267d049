-- ===== src/Display/SignerTable/Laws.antt =====
-- What the signer table prints: its rows, its count of signatures and its verdict.
use native.Mathlib.Nat.{mod-eq_of_lt}
use brale_miden_demo.Base.{
  ℕ, zero, suc, ◌+◌, ◌-◌, ◌^◌, ◌≤◌, ◌<◌, ◌≡◌, refl, ◌∙◌, ap, Bool, inl, inr, Bool-cases, leb, true,
  false, List, [], ◌∷◌, ◌++◌, map, some, length, length-append, length-drop, take, drop, All, ltb,
  if◌then◌else◌, returned, arith, append_assoc,
}
use brale_miden_demo.Text.{Str, text, pad_right}
use brale_miden_demo.Decimal.{to_string}
use brale_miden_demo.Text.Laws.{IsAscii, len-eq-length, split_at-ascii}
use brale_miden_demo.Display.Layout.{separator, row, length-row_padded, length-separator}
use brale_miden_demo.Display.SignerTable.{
  Signer, ellipsis, commit_display, status_text, signer_row, signer_rows, summary, header, sep_bot,
  print_signer_table,
}

-- The commitment as the table shows it: whole up to twelve characters, else its first six and its
-- last four around an ellipsis.
abbrev pub abbreviated : Str → Str
abbreviated hex =
    if ltb 12 (length hex) then take 6 hex ++ (ellipsis ∷ drop (length hex - 4) hex) else hex

pub commit_display-ascii : (hex : Str) → IsAscii hex → commit_display hex ≡ some (abbreviated hex)
unfolding commit_display
commit_display-ascii hex h =
    ground
      (arith, len-eq-length hex h, split_at-ascii hex 6 h, split_at-ascii hex (length hex - 4) h)

length-take_le : (n : ℕ) (s : Str) → length (take n s) ≤ n
length-take_le zero s = omega arith
length-take_le (suc n) [] = omega arith
length-take_le (suc n) (c ∷ s) = omega (arith, length-take_le n s)

pub length-abbreviated : (hex : Str) → length (abbreviated hex) ≤ 12
length-abbreviated hex = ground (
  arith,
  length-append (take 6 hex) (ellipsis ∷ drop (length hex - 4) hex),
  length-take_le 6 hex,
  length-drop (length hex - 4) hex,
)

-- How many have signed.
abbrev pub count_signed : List Signer → ℕ
count_signed [] = 0
count_signed (s ∷ signers) = (if s.signed then 1 else 0) + count_signed signers

abbrev pub shown : Signer → Str
shown s = signer_row s.name (status_text s.signed) (abbreviated s.commitment_hex)

-- A row as it reads: the name, whether the signer has signed, and the commitment, each padded with
-- spaces to the width of its column.
abbrev pub written : Signer → Str
written s =
    text "│ "
    ++ (pad_right b' ' 9 s.name
        ++ (text "│ "
            ++ (pad_right b' ' 11 (if s.signed then text "✓ Signed" else text "— Pending")
                ++ (text "│ " ++ (pad_right b' ' 13 (abbreviated s.commitment_hex) ++ text "│")))))

-- The verdict as it reads.
abbrev pub comparison : ℕ → ℕ → ℕ → Str
comparison count total threshold =
    text "Threshold: "
    ++ (to_string count
        ++ (text "/"
            ++ (to_string total
                ++ (if leb threshold count
                    then text " met ✓"
                    else text " (need " ++ (to_string threshold ++ text ")")))))

abbrev pub HasAsciiCommitments : List Signer → Type 0
HasAsciiCommitments = All (λ s. IsAscii s.commitment_hex)

signer_rows_lem :
    (signers : List Signer) (n : ℕ)
    → HasAsciiCommitments signers
    → n + length signers < 2 ^ 32
    → signer_rows signers n ≡ (map shown signers, returned (n + count_signed signers))
unfolding signer_rows
signer_rows_lem [] n h lt = ground arith
signer_rows_lem (s ∷ signers) n h lt = ground (
  arith,
  commit_display-ascii s.commitment_hex h.0,
  signer_rows_lem signers (n + 1) h.1,
  signer_rows_lem signers n h.1,
)

-- The lines of the box, without the verdict below it.
abbrev pub box : List Signer → List Str
box signers = header ++ (map shown signers ++ (sep_bot ∷ []))

shown-written : (s : Signer) → shown s ≡ written s
unfolding signer_row status_text row
shown-written s = refl

map-written : (signers : List Signer) → map shown signers ≡ map written signers
map-written [] = refl
map-written (s ∷ signers) =
    ap (λ x. x ∷ map shown signers) (shown-written s)
    ∙ ap (λ l. written s ∷ l) (map-written signers)

summary-comparison :
    (count total threshold : ℕ) → summary count total threshold ≡ comparison count total threshold
unfolding summary
summary-comparison count total threshold = elim (Bool-cases (leb threshold count)) [
  | inl met ↦ rw met (
      append_assoc (text "Threshold: ") (to_string count ++ (text "/" ++ to_string total))
        (text " met ✓")
      ∙ ap (λ l. text "Threshold: " ++ l) (joined (text " met ✓")))
  | inr unmet ↦ rw unmet (
      append_assoc (text "Threshold: ") (to_string count ++ (text "/" ++ to_string total)) (needed)
      ∙ ap (λ l. text "Threshold: " ++ l) (joined needed))
]
  where
    needed : Str
    needed = text " (need " ++ (to_string threshold ++ text ")")

    joined :
        (end : Str)
        → (to_string count ++ (text "/" ++ to_string total)) ++ end
          ≡ to_string count ++ (text "/" ++ (to_string total ++ end))
    joined end = append_assoc (to_string count) (text "/" ++ to_string total) end

pub boxed_lem :
    (signers : List Signer) (threshold : ℕ)
    → HasAsciiCommitments signers
    → length signers < 2 ^ 32
    → print_signer_table signers threshold ≡ (
      box signers ++ (summary (count_signed signers) (length signers) threshold ∷ []),
      returned tt,
    )
unfolding print_signer_table
boxed_lem signers threshold h lt = ground (
  arith,
  signer_rows_lem signers 0 h,
  mod-eq_of_lt lt,
  append_assoc (map shown signers) (sep_bot ∷ [])
      (summary (count_signed signers) (length signers) threshold ∷ []),
)

-- The table as it reads: the box with a row for each signer, and the comparison below it.
abbrev pub table : List Signer → ℕ → List Str
table signers threshold =
    text "┌──────────┬────────────┬──────────────┐"
    ∷ text "│ Signer   │ Status     │ Commitment   │"
    ∷ text "├──────────┼────────────┼──────────────┤"
    ∷ (map written signers
        ++ (text "└──────────┴────────────┴──────────────┘"
            ∷ comparison (count_signed signers) (length signers) threshold
            ∷ []))

box-table :
    (signers : List Signer) (threshold : ℕ)
    → box signers ++ (summary (count_signed signers) (length signers) threshold ∷ [])
      ≡ table signers threshold
unfolding separator signer_row row
box-table signers threshold =
    let verdict = summary (count_signed signers) (length signers) threshold in
    ap (λ l. header ++ l) (append_assoc (map shown signers) (sep_bot ∷ []) (verdict ∷ []))
    ∙ (ap (λ l. header ++ (l ++ (sep_bot ∷ verdict ∷ []))) (map-written signers)
        ∙ ap (λ v. header ++ (map written signers ++ (sep_bot ∷ v ∷ [])))
            (summary-comparison (count_signed signers) (length signers) threshold))

-- With ASCII commitments and fewer than 2^32 signers nothing panics, and what is printed reads as
-- written out: the box has one row for each signer in order, with the name, whether the signer has
-- signed, and the abbreviated commitment, and the last line says how many of all have signed, and
-- that the threshold is met exactly if they are at least as many.
pub print_signer_table_lem :
    (signers : List Signer) (threshold : ℕ)
    → HasAsciiCommitments signers
    → length signers < 2 ^ 32
    → print_signer_table signers threshold ≡ (table signers threshold, returned tt)
print_signer_table_lem signers threshold h lt =
    boxed_lem signers threshold h lt ∙ ap (λ l. (l, returned tt)) (box-table signers threshold)

row-width :
    (name status commit : Str)
    → length name ≤ 9
    → length status ≤ 11
    → length commit ≤ 13
    → length (signer_row name status commit) ≡ 40
unfolding signer_row
row-width name status commit hn hs hc = omega (arith, length-row_padded 9 11 13 name status commit)

status_text-fits : (signed : Bool) → length (status_text signed) ≤ 11
unfolding status_text
status_text-fits true = omega arith
status_text-fits false = omega arith

shown-width : (s : Signer) → length s.name ≤ 9 → length (shown s) ≡ 40
shown-width s h =
    row-width s.name (status_text s.signed) (abbreviated s.commitment_hex) h
      (status_text-fits s.signed) (omega (arith, length-abbreviated s.commitment_hex))

border_width : (left cross right : ℕ) → length (separator left cross right 10 12 14) ≡ 40
border_width left cross right = omega (arith, length-separator left cross right 10 12 14)

rows-width :
    (signers : List Signer)
    → All (λ s. length s.name ≤ 9) signers
    → All (λ l. length l ≡ 40) (map shown signers ++ (sep_bot ∷ []))
rows-width [] h = (border_width _ _ _, tt)
rows-width (s ∷ signers) h = (shown-width s h.0, rows-width signers h.1)

box-width :
    (signers : List Signer)
    → All (λ s. length s.name ≤ 9) signers
    → All (λ l. length l ≡ 40) (box signers)
box-width signers h = (
  border_width _ _ _,
  (
    row-width (text "Signer") (text "Status") (text "Commitment") (omega arith) (omega arith)
        (omega arith),
    (border_width _ _ _, rows-width signers h),
  ),
)

-- With ASCII commitments, names of at most nine characters and fewer than 2^32 signers, every
-- printed line but the last is forty characters wide.
pub print_signer_table-widths :
    (signers : List Signer) (threshold : ℕ)
    → HasAsciiCommitments signers
    → length signers < 2 ^ 32
    → All (λ s. length s.name ≤ 9) signers
    → (lines : List Str) × (verdict : Str) × ((print_signer_table signers threshold).0
        ≡ lines ++ (verdict ∷ []))
      × All (λ l. length l ≡ 40) lines
print_signer_table-widths signers threshold h lt names = (
  box signers,
  summary (count_signed signers) (length signers) threshold,
  ap (λ printed. printed.0) (boxed_lem signers threshold h lt),
  box-width signers names,
)
