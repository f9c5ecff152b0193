-- ===== src/Signal.antt =====
-- aether-kernel/src/signal: signal masks, dispositions, pending signals and their delivery.
pub mod Abi
pub mod Altstack
pub mod Core
pub mod Masks
pub mod Codec
pub mod State
mod Tests
