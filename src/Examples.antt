-- ===== src/Examples.antt =====
-- Concrete values of what the models take as parameters: they show that the assumptions can be
-- met, and the tests run the models on them.
pub mod Crates
pub mod Chain
pub mod Node
pub mod Texts
pub mod Whole
pub mod Assembly
