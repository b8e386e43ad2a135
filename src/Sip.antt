-- ===== src/Sip.antt =====
-- internal/sip: what the gateway sends on its trunk side, and how it finds the trunk of a call.
pub mod Dtmf
pub mod Trunk
pub mod Registry
