-- ===== src/Game.antt =====
-- The memory game itself (CardPang/CardPang/Model and CardPang/CardPang/Controller/GameMode).
pub mod Deck
pub mod Board
mod Examples
