-- ===== src/Chess.antt =====
-- crates/apps/chess/src: the rules of chess, and the certificate of a move.
pub mod Square
pub mod Piece
pub mod Move
pub mod Position
pub mod Attack
pub mod Classify
pub mod Rules
pub mod Challenges
pub mod Certificate
pub mod Movegen
pub mod Codecs
mod Examples
