-- ===== src/Framework.antt =====
-- src/framework and src/vsf.cpp: the classes that a user of the library calls.
pub mod VmSet
pub mod Host
pub mod Vsf
pub mod Compat
pub mod Vm
