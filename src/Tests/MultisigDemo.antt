-- ===== src/Tests/MultisigDemo.antt =====
-- The multisig demo at a concrete input.
use brale_miden_demo.Base.{ℕ, zero, suc, arith, ◌≡◌, refl, [], ◌∷◌, replicate, ok, err, returned}
use brale_miden_demo.Text.{Str, text}
use brale_miden_demo.Text.Laws.{IsAscii}
use brale_miden_demo.Config.{Env, not_present}
use brale_miden_demo.Multisig.{Psm}
use brale_miden_demo.Programs.MultisigDemo.{MultisigClient, multisig_demo}
use brale_miden_demo.Programs.MultisigDemo.Panicking.{HexLaws, multisig_demo-returned}
use brale_miden_demo.Tests.Doubles.{crypto, psm}

-- A store whose signatures have their documented length.
abbrev long_psm : Psm crypto
long_psm = record psm { store_sign_hex = λ key message. replicate 132 b'0' }

zeros-IsAscii : (n : ℕ) → IsAscii (replicate n b'0')
zeros-IsAscii zero = tt
zeros-IsAscii (suc n) = (omega arith, zeros-IsAscii n)

long_psm-HexLaws : HexLaws crypto long_psm
long_psm-HexLaws = record {
  commitment_hex-ascii = λ key. (omega arith, (omega arith, tt));
  sign_hex-ascii = λ key message. zeros-IsAscii 132;
  length-sign_hex = λ key message. refl;
}

-- A service that is down when the account is created.
abbrev service : MultisigClient crypto
service = record {
  Endpoint = Str;
  State = ℕ;
  Account = ℕ;
  endpoint = λ s. ok s;
  build = λ endpoint psm_endpoint dir key. ok key;
  create_account = λ threshold commitments s. err (text "unavailable" ∷ []);
  display_account = λ id. id ∷ [];
}

abbrev env : Env
env name = err not_present

multisig_demo-returned_example :
    (multisig_demo crypto long_psm service env 5 []).0
    ≡ returned (err (text "failed to create multisig account" ∷ text "unavailable" ∷ []))
multisig_demo-returned_example =
    multisig_demo-returned crypto long_psm service long_psm-HexLaws env 5 []
