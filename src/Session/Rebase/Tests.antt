-- ===== src/Session/Rebase/Tests.antt =====
-- Runs of the rebaser of internal/session/uplink_video_ts_rebase.go at concrete inputs: the wrap of the
-- browser's timestamps, a late packet, and a jump.
use webrtc_gateway.Base.{ℕ, arith, refl, List, ◌≡◌, true, ◌∷◌, []}
use webrtc_gateway.Session.Rebase.Order.{IsValid, run, Arrival, Undisturbed, OnTimeline, run_offset}
use webrtc_gateway.Session.Rebase.{Rebaser, map_ts}

abbrev stream : ℕ
stream = 9

abbrev running : Rebaser
running = record {
  started = true;
  base = 5400000;
  ssrc = 9;
  last_in = 4294967000;
  last_out = 5403000;
  last_at = 1000;
  discs = 0;
}

running-IsValid : IsValid running
running-IsValid = record {
  base_in = omega arith;
  last_in_in = omega arith;
  last_out_in = omega arith;
}

wraps_with_the_browser : (map_ts 2704 9 2000 running).timestamp ≡ 5406000
unfolding map_ts
wraps_with_the_browser = refl

abbrev arrivals : List Arrival
arrivals =
    record { at_browser = 2704; source = 9; time = 2000 }
    ∷ record { at_browser = 4294967000; source = 9; time = 2100 }
    ∷ []

run_offset_example : OnTimeline 5403296 arrivals (run arrivals running).1
unfolding run Undisturbed map_ts
run_offset_example =
    run_offset arrivals running refl running-IsValid (omega arith, (omega arith, tt))
      (refl, (refl, tt))
