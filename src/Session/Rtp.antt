-- ===== src/Session/Rtp.antt =====
-- RTP packets (of the module pion/rtp, read through the fields that internal/session uses) and the
-- access units of internal/session/h264_access_unit_normalizer.go. A packet pointer is never nil.
use Prim.Native.String.{String}
use webrtc_gateway.Base.{ℕ, Bool, Option, List}

pub record Packet : Type 0 where
  pub marker : Bool
  pub payload_type : ℕ
  pub sequence_number : ℕ
  pub timestamp : ℕ
  pub ssrc : ℕ
  pub payload : List ℕ

-- One outbound timestamp repair.
pub record Discontinuity : Type 0 where
  pub reason : String
  pub incoming : ℕ
  pub previous_incoming : ℕ
  pub outgoing : ℕ
  pub previous_outgoing : ℕ
  pub wall : ℕ

pub record SameTimestampSplit : Type 0 where
  pub incoming : ℕ
  pub outgoing : ℕ
  pub count : ℕ
  pub wall : ℕ
  pub first_mb : Option ℕ
  pub packets : ℕ
  pub previous_packets : ℕ

pub record AccessUnit : Type 0 where
  pub packets : List Packet
  pub is_idr : Bool
  pub injected_parameter_sets : Bool
  pub parameter_sets_ready : Bool
  pub generation : ℕ
  pub source_timestamp : ℕ
  pub discontinuity : Option Discontinuity
  pub same_timestamp_split : Option SameTimestampSplit
