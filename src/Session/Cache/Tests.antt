-- ===== src/Session/Cache/Tests.antt =====
-- Runs of the packet cache of internal/session/rtp_cache.go at concrete inputs.
use webrtc_gateway.Base.{ℕ, arith, [], ◌∷◌, refl, List, ◌≡◌, some}
use webrtc_gateway.Session.Cache.{requested, init_history, cached, NackPair, store}
use webrtc_gateway.Session.Cache.Recent.{store_from, recent_found, init_history-IsValid}

abbrev bytes : List ℕ
bytes = 128 ∷ 96 ∷ []

recent_found_example :
    cached 65535 (store_from 0 ((1 ∷ []) ∷ (2 ∷ []) ∷ []) (store 65535 bytes init_history))
    ≡ some bytes
unfolding init_history
recent_found_example =
    recent_found 65535 bytes ((1 ∷ []) ∷ (2 ∷ []) ∷ []) init_history init_history-IsValid refl refl
      (omega arith)

abbrev asked : List NackPair
asked = record { packet_id = 65535; lost_packets = 5 } ∷ []

asks_around_the_end :
    requested (record { packet_id = 65535; lost_packets = 5 }) ≡ 65535 ∷ 0 ∷ 2 ∷ []
unfolding requested
asks_around_the_end = refl
