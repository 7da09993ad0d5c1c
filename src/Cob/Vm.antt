-- ===== src/Cob/Vm.antt =====
-- src/cob/vm.h and vm.cpp.
pub mod Env
pub mod State
pub mod Op
pub mod Exec
pub mod Motion
pub mod Run
pub mod Later
pub mod Kept
pub mod Slices
pub mod Ticks
pub mod Signals
