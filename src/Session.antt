-- ===== src/Session.antt =====
-- The package internal/session: the media path of a call and the state that steers it.
pub mod Reorder
pub mod Rtp
pub mod Gate
pub mod Bits
pub mod Normalizer
pub mod Cache
pub mod Disorder
pub mod Recovery
pub mod Feedback
pub mod Uplink
pub mod Rebase
pub mod Mode0
pub mod Call
pub mod Sps
