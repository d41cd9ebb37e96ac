-- ===== src/Pizzeria.antt =====
-- The pizzeria of cw07/zad1: cooks and deliverers over shared memory and System V semaphores.
pub mod Kitchen
pub mod System
