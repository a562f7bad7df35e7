-- ===== src/Lib.antt =====
-- LN-GAP: two-party contracts over a Lightning channel, settled off chain and enforced by Bitcoin
-- Script in a dispute. A contract (crates/contract) is a game of states, moves and payouts, read
-- and written as bits; in a dispute a player claims (prior state, move, new state, outcome code)
-- under one-time keys (crates/lamport), and the counterparty shows a disprove leaf that detects
-- what is false of the claim. The apps (crates/apps) are the games.
--
-- Files:
-- Prelude.antt, Prelude/: names of the library passed on, Boolean tests, lists and results over
--   the native numbers, and the lemmas that the components share.
-- Lamport.antt, Lamport/: crates/lamport/src. Bits and Key are lib.rs (uint_to_bits,
--   bits_to_uint, BitCommit, PublicKey, SecretKey, Reveal); Winternitz is winternitz.rs
--   (WotsParams, WotsPublicOf, WotsSecretOf, WotsSigOf); KeyStore is keystore.rs, whose store is
--   a record with two association lists, each operation a function to the store and a result.
--   The hash, the random number generator and the seed's derivation are parameters. Gadgets and
--   Winternitz/Gadget are the scripts of gadgets.rs and of winternitz.rs, and what they do when the
--   interpreter runs them: Bit, Round, Decode and Expect on bits and numbers, Step, Finale, Verify
--   and Accepts on signatures, Native on the native verification.
-- Script.antt, Script/: crates/script32/src/sim.rs, the interpreter of scripts. Number is the script
--   numbers, Stack the pops and the opcodes of the main stack, Machine the conditions, the alt stack,
--   the loop and the peak; Runs is about scripts one after another. Builder is what
--   crates/btc/src/script.rs pushes; push_int of the bitcoin crate is a parameter with the two forms
--   that it documents, and Sample is a function that has them.
-- Contract.antt, Contract/: crates/contract/src/lib.rs. The trait Contract is a record whose
--   fields are its methods, the trait Program its functions on bits; Plays folds transitions over
--   a sequence of moves.
-- TicTacToe.antt, TicTacToe/: crates/apps/tictactoe/src/lib.rs, the rules and the 21-bit board,
--   and the native checks (detects) of its disprove leaves, in the source's order.
-- Blackjack.antt, Blackjack/: crates/apps/blackjack/src/lib.rs. Head is the 48-byte head, Hand
--   the honest moves and the house's reveals, Predicates and Shares the disprove predicates and
--   the share strings. Totals, Dealer, Counters, Cards, Honest, Ranges and Deals are about
--   honest play, Silence and SoftHands about entries on which no predicate fires.
-- Chess.antt, Chess/: crates/apps/chess/src. Square, Piece, Move, Position, Attack and Movegen are
--   the files of those names (Move is mv.rs), a board a list of 64 nibbles, an i8 difference an
--   integer. rules.rs is Classify, one function for each part of classify, which ends in the
--   violation it names, and Rules, for apply and verify. certificate.rs is Challenges, the
--   challenge space and the reads that a check makes, and Certificate, the check and the search.
--   Position/Bytes and Codecs are about the encodings, Rules/ about what apply and verify accept,
--   Certificate/ about the check against the rules: Rays, Pieces and Attacks on lines and attacks,
--   Castle and Mover on the move made, Rights, Fields, Shapes, Safety, Paths, Board and Squares on a
--   kind of challenge each, Kings on the kings after a move, Sound on the whole search; Search,
--   Lawful, Classified, Ways, Castling, Landing, CastleWay and Complete on what a move without a
--   challenge must be.
-- N4Bit.antt, N4Bit/: crates/n4bit/src. N4Bit is the native hash of lib.rs, whose state is a
--   list of nibbles; Ranges and Digest are about the nibbles and bytes, Inverse about the way
--   back from a round, Short about inputs of one block, Target about the difficulty. Script is
--   script.rs with what the interpreter does on each pass: Nibble on one nibble and one pair,
--   Phases on the first two passes, Permute on the last one and on a round.
--
-- Numbers are natural numbers; a machine width is written out where the code can meet it:
-- `v >> i` is a quotient by 2 ^ i, a u32 packed from bits is a remainder by 2 ^ 32, a digit of
-- base 16 is a remainder by 16. Panics are results: an index or an assertion that fails gives an
-- error, except that a card position above 15, or a bit or cell out of range, reads as zero or
-- false; the hypotheses of the theorems keep to inputs where the source reads none. The loop
-- that counts the checksum digits of a Winternitz key runs on nine rounds of fuel; eight powers
-- of 16 pass every bound below 2 ^ 32. The dealer of Blackjack draws on fuel of fifteen rounds,
-- one for each position up to the limit, and the shares of an entry are read on fuel of its
-- length. A walk between two squares runs on eight rounds, which cross the board, as does a
-- slide. A step that the chess source expects on the board stays where it is if it is not, and a
-- nibble that is no piece reads as an empty square; the theorems keep to positions that hold
-- none.
--
-- The blocks of the nibble hash are cut on fuel of the number of nibbles, a block takes one at
-- least. A lookup outside the S-box and a copy of another length than the digest's are panics,
-- the value none of an Option. So are the overflows of WotsParams::for_bytes and of
-- target_from_difficulty, which have a flag that tells whether overflow panics, as in a build
-- for debugging, or wraps.
--
-- The interpreter's i64 is an integer without a bound: an opcode reads numbers below 2 ^ 31 and
-- makes numbers below 2 ^ 32. A number is encoded on eight rounds of fuel, the bytes of an i64.
-- A stack is a list with its top first, while the source pushes at the end of a vector. decode
-- gives no number for more than eight bytes, where its shift overflows.
--
-- Not modelled: the text forms of chess positions and moves, the Script bodies of the leaves
-- beyond the gadgets that decode keys and signatures and the round of the hash, the parser of
-- scripts, the transaction graphs and signatures (types of the bitcoin crate), the channel's
-- wire protocol, processes, sockets and web pages, and the experiments over BitVMX and RISC
-- Zero.
pub mod Prelude
pub mod Lamport
pub mod Script
pub mod Contract
pub mod TicTacToe
pub mod Blackjack
pub mod Chess
pub mod N4Bit
