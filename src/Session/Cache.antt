-- ===== src/Session/Cache.antt =====
-- internal/session/rtp_cache.go: the ring of the last video packets that went to the browser, and the
-- retransmissions that a NACK asks for. Whether the write of a packet succeeds is a parameter.
pub mod Recent
pub mod Tests
use webrtc_gateway.Base.{
  ℕ, Bool, if◌then◌else◌, [], ◌∷◌, none, some, Option, List, repeat, ◌%◌, length, not, ◌++◌, suc,
  ◌+◌, is_empty, ◌||◌, ◌-◌, u16, ◌==◌, ◌/◌, get_or, ◌^◌, ◌!=◌, set,
}
use Prim.Native.Nat.{zero}

abbrev pub history_size : ℕ
history_size = 1024

pub record Cache : Type 0 where
  pub size : ℕ
  pub packets : List (List ℕ)
  pub stored_seq : List ℕ

-- initVideoRTPHistory
pub init_history : Cache
init_history = record {
  size = history_size;
  packets = repeat history_size [];
  stored_seq = repeat history_size 0;
}

-- CacheVideoRTPPacket; a size that is too large for a uint16 wraps.
pub store : ℕ → List ℕ → Cache → Cache
store seq bytes c =
    if is_empty bytes || (c.size == 0)
    then c
    else let index = seq % u16 c.size in
      record c { packets = set c.packets index bytes; stored_seq = set c.stored_seq index seq }

-- ClearVideoRTPHistory
pub clear_history : Cache → Cache
clear_history c = record c {
  packets = repeat (length c.packets) [];
  stored_seq = repeat (length c.stored_seq) 0;
}

-- getCachedVideoRTPPacket, with `none` for nil.
pub cached : ℕ → Cache → Option (List ℕ)
cached seq c =
    let index = seq % u16 c.size in
    let bytes = get_or c.packets index [] in
    if c.size == 0
    then none
    else if (get_or c.stored_seq index 0 != seq) || is_empty bytes
    then none
    else some bytes

-- A rtcp.NackPair: a sequence number, and a bit for each of the sixteen after it.
pub record NackPair : Type 0 where
  pub packet_id : ℕ
  pub lost_packets : ℕ

-- The numbers whose bits are set, from bit 16 - n on.
pub lost_from : ℕ → NackPair → List ℕ
lost_from zero pair = []
lost_from (suc n) pair =
    let i = 15 - n in
    let rest = lost_from n pair in
    if pair.lost_packets / 2 ^ i % 2 == 1 then u16 (pair.packet_id + i + 1) ∷ rest else rest

pub requested : NackPair → List ℕ
unfolding lost_from
requested pair = pair.packet_id ∷ lost_from 16 pair

pub record Resent : Type 0 where
  pub written : List (List ℕ)
  pub sent : ℕ
  pub missing : ℕ

module _ (write_succeeds : List ℕ → Bool) where
  pub resend_seqs : List ℕ → Cache → Resent
  unfolding cached
  resend_seqs [] c = record { written = []; sent = 0; missing = 0 }
  resend_seqs (seq ∷ seqs) c =
      let rest = resend_seqs seqs c in
      elim (cached seq c) [
        | none ↦ record rest { missing = rest.missing + 1 }
        | some bytes ↦
            if write_succeeds bytes
            then record {
              written = bytes ∷ rest.written;
              sent = rest.sent + 1;
              missing = rest.missing;
            }
            else record {
              written = bytes ∷ rest.written;
              sent = rest.sent;
              missing = rest.missing + 1;
            }
      ]

  pub resend_pairs : List NackPair → Cache → Resent
  unfolding resend_seqs requested
  resend_pairs [] c = record { written = []; sent = 0; missing = 0 }
  resend_pairs (pair ∷ pairs) c =
      let here = resend_seqs (requested pair) c in
      let rest = resend_pairs pairs c in
      record {
        written = here.written ++ rest.written;
        sent = here.sent + rest.sent;
        missing = here.missing + rest.missing;
      }

  -- RetransmitVideoNACK, with whether there is a video track.
  pub retransmit : Bool → List NackPair → Cache → Resent
  unfolding resend_pairs
  retransmit has_track pairs c =
      if not has_track || is_empty pairs
      then record { written = []; sent = 0; missing = length pairs }
      else resend_pairs pairs c
