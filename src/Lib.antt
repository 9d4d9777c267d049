-- ===== src/Lib.antt =====
-- A model of the crate integration of this repository: issuing, minting, transferring and burning a
-- stablecoin on Miden, signed by a key store that may hand signing to an external backend.
--
-- The parts and the files that model them (Rust paths from the repository's root):
--   Config         integration/src/config.rs: `Config::from_env` as a function of the environment.
--   Display        integration/src/display.rs: `print_balance_table` (BalanceTable) and
--                  `print_signer_table` (SignerTable), as the lines that they print.
--   Keystore       integration/src/keystore.rs: the trait `ExternalSigner`, `BraleKeystore` and its
--                  `get_signature`, `keccak256_hash_word` and `parse_ecdsa_signature`.
--   MockSigner     integration/src/mock_signer.rs: `SimulatedMpcSigner`, with its map of keys.
--   Multisig       integration/src/multisig.rs: `BraleMpcKeyManager` and `SimulatedMpcKeyManager`,
--                  each with its `KeyManager`.
--   Operations     integration/src/operations.rs: account creation (Accounts), minting, burning and
--                  transfer (Tokens), polling and consuming notes (Notes), the reads (Reads), and the
--                  lines with the links of the explorer (Links).
--   Ledger         What the operations are to do to the ledger of a token: supply, vaults and notes in
--                  flight (Conservation), the operations on it (Operations), what is assumed of the
--                  client and the network for that (Laws), and what more where nobody else acts on
--                  the token (Alone), where calls succeed that the ledger permits (Online), and
--                  where the accounts of the client show what the ledger says (Shows).
--   Programs       integration/src/bin/*.rs: what the single operations share (Setup), their arguments
--                  (Arguments), mint, burn and transfer (Tokens), create_account, deploy_issuer,
--                  read_balance and read_supply (Accounts), and the demos full_demo (FullDemo) and
--                  multisig_demo (MultisigDemo).
--   Helpers        integration/src/helpers.rs: what it calls (Toolchain), building projects (Building), and
--                  components, accounts and notes from packages (Components, Accounts, Notes).
--   Effects        State with failures and panics, for Helpers and the multisig demo.
--   Text, Decimal  What Rust's `str` and unsigned integers do where the sources use them.
--   Crypto, Client The interfaces of the crates that the sources call.
--   Base           Shared library names, results and lemmas.
--   Tests          Runs at concrete inputs and instances of the theorems.
--
-- How they interact: the operations drive a client, which asks the key store for signatures; the
-- key store signs with a key of the `FilesystemKeyStore` that it wraps, or sends a Keccak256 digest
-- to an external signer and parses the 65 bytes that come back. The simulated signer stands in for
-- such a backend. The key manager for multisig sends the same digest to the same kind of signer. A
-- program reads its configuration and arguments, makes a fresh key, builds a key store over a
-- signer that has only this key, builds a client over that, and runs one operation.
--
-- How the code is rendered. A text is the list of its code points; bytes are lists of numbers. A
-- `Result` is `ok` or `err`, and `Panics` tells a value from a panic. An `anyhow::Error` is the
-- list of its messages, the outermost context first. An operation is an `Action`: it takes a
-- `World`, which is the client's state and the lines printed so far, and returns a result and the
-- world that it leaves, also where it fails. The map behind the mutex of the simulated signer is an
-- association list.
--
-- Third-party crates are parameters: the records `Crypto`, `FilesystemKeyStore`, `Psm`, `Client`,
-- `Programs.Setup.Machine`, `Programs.MultisigDemo.MultisigClient` and `Helpers.Toolchain.Toolchain`. What the crates
-- document and a theorem relies on is in `Crypto.Laws`, `Operations.Deployment.Laws` and
-- `Programs.MultisigDemo.Panicking.HexLaws`, and for the ledger in `Ledger.Laws`,
-- `Ledger.Alone`, `Ledger.Online`, `Ledger.Shows` and, for the demo,
-- `Programs.FullDemo.Creating.Creates` and `Programs.FullDemo.Created.Network`; Tests.Doubles,
-- Tests.Ledgers and Tests.Networks have small instances.
-- `Programs.FullDemo.Signing.Backed` says that a client signs with the authenticator it was built with.
-- `Operations.Recorded` puts a record of every submission, with its answer, around any client.
--
-- Bounds. The loop that waits for notes runs 120 rounds as in the source, by recursion on the
-- rounds left, and its theorems hold for any such bound; it never runs past it. Decimal digits are
-- written with fuel 20, and 2^64 - 1 has 20 digits. The counter of signatures wraps at 2^32.
--
-- Not modelled: the structured log of `tracing`, on which no result depends; the poisoning of a mutex;
-- the tests and the documents.
pub mod Base
pub mod Text
pub mod Decimal
pub mod Config
pub mod Display
pub mod Crypto
pub mod Keystore
pub mod MockSigner
pub mod Multisig
pub mod Client
pub mod Operations
pub mod Effects
pub mod Helpers
pub mod Ledger
pub mod Programs
pub mod Tests
