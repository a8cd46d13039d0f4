-- ===== src/Container.antt =====
-- The ordered containers of the C++ standard library that the program uses.
pub mod Order
pub mod Map
pub mod Set
