-- ===== src/Cob.antt =====
-- src/cob: the interpreter of unit animation scripts.
pub mod Vm
