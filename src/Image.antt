-- ===== src/Image.antt =====
-- The negation of a grey image by several threads: cw08/zad1.
pub mod Schedule
pub mod Pixels
pub mod Files
