-- ===== src/Game.antt =====
-- Tic-tac-toe over sockets: cw10/zad1.
pub mod Board
pub mod Message
pub mod Server
pub mod Client
