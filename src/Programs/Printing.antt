-- ===== src/Programs/Printing.antt =====
-- A program whose state is what it has printed.
pub use brale_miden_demo.Effects.{◌>>=◌, ◌>>◌, lift, context, unwrap, value}
use brale_miden_demo.Base.{List, ◌++◌, ok, Panics, returned, panicked}
use brale_miden_demo.Text.{Str}
use brale_miden_demo.Effects.{Run}

abbrev pub Step : Type 0 → Type 0
Step A = Run (List Str) A

abbrev pub print : List Str → Step (Unit {0})
print lines out = (returned (ok tt), out ++ lines)

-- Lines, and then perhaps a panic.
abbrev pub print_all : List Str × Panics (Unit {0}) → Step (Unit {0})
print_all (lines, returned u) out = (returned (ok tt), out ++ lines)
print_all (lines, panicked) out = (panicked, out ++ lines)
