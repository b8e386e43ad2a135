-- ===== src/Session/Disorder/Tests.antt =====
-- Runs of the disorder monitor of internal/session/rtp_disorder.go at concrete inputs.
use webrtc_gateway.Base.{ℕ, [], ◌∷◌, refl, true, none, ◌*◌}
use webrtc_gateway.Session.Disorder.{
  Summary, Monitor, observe, policy_of, failure, start_containment, rtp_delta, bad_window_of,
}
use webrtc_gateway.Session.Disorder.Windows.{IsFresh, after, BadRun, containment-BadRun}

abbrev nothing_yet : Summary
nothing_yet = record {
  packets = 0;
  gaps = 0;
  missing = 0;
  out_of_order = 0;
  duplicates = 0;
  reorder_buffered = 0;
  reorder_released = 0;
  reorder_dropped = 0;
  reorder_timed_out = 0;
  reorder_pending = 0;
  last_keyframe_age = 0;
}

-- A tenth of the packets is missing.
abbrev lossy : ℕ → Summary
lossy n = record nothing_yet { packets = n * 1000; missing = n * 100 }

abbrev fresh : Monitor
fresh = record {
  enabled = true;
  configured = record {
    min_packets = 0;
    max_gaps = 0;
    max_missing = 0;
    max_out_of_order = 0;
    max_timeouts = 0;
    consecutive_windows = 2;
    log_interval = 0;
    containment_enabled = true;
    containment_duration = 0;
  };
  last_summary = nothing_yet;
  last_at = none;
  consecutive_bad = 0;
  last_log = none;
  contained_from = none;
  contained_until = none;
  contained_for = none;
}

fresh-IsFresh : IsFresh fresh
fresh-IsFresh = record {
  nothing_seen = refl;
  nothing_bad = refl;
  nothing_contained = refl;
  is_enabled = refl;
}

containment-BadRun_example :
    BadRun (policy_of fresh.configured) 2 ((lossy 3, 3000) ∷ (lossy 2, 2000) ∷ (lossy 1, 1000) ∷ [])
unfolding after observe policy_of failure rtp_delta bad_window_of start_containment
containment-BadRun_example =
    containment-BadRun fresh (lossy 3) 3000 ((lossy 2, 2000) ∷ (lossy 1, 1000) ∷ []) fresh-IsFresh
      refl
