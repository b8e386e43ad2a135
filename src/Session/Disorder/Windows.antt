-- ===== src/Session/Disorder/Windows.antt =====
-- The containment of internal/session/rtp_disorder.go over a history of observations: it needs a run of bad windows,
-- and never outlasts a good one or its time.
use webrtc_gateway.Base.{
  ℕ, arith, true, false, [], ◌∷◌, none, List, ◌≡◌, suc, is_zero, ◌≢◌, ◌≤◌, ◌⊎◌, ◌+◌, subst, sym,
  inl, ◌∙◌, inr, subst₂,
}
use webrtc_gateway.Session.Disorder.{
  Policy, Monitor, observe, bad_window_of, Summary, good_window, end_containment, failure,
  start_containment, rtp_delta, policy_of, is_over,
}
use Prim.Native.Nat.{zero}

-- The monitor after observations at their times, the newest first.
unfoldable pub after : Monitor → List (Summary × ℕ) → Monitor
after m [] = m
after m ((s, now) ∷ older) = (observe s now (after m older)).0

-- The newest `n` windows, from an observation to the next, are bad.
unfoldable pub BadRun : Policy → ℕ → List (Summary × ℕ) → Type 0
BadRun p zero h = Unit
BadRun p (suc n) [] = ⊥
BadRun p (suc n) (o ∷ []) = ⊥
BadRun p (suc n) (o ∷ o' ∷ older) =
    (failure (rtp_delta o.0 o'.0) p ≢ none) × BadRun p n (o' ∷ older)

-- A monitor that has seen nothing.
pub record IsFresh (m : Monitor) : Type 0 where
  pub nothing_seen : m.last_at ≡ none
  pub nothing_bad : m.consecutive_bad ≡ 0
  pub nothing_contained : m.contained_until ≡ none
  pub is_enabled : m.enabled ≡ true

-- What one observation leaves, whatever the state before it.
observe-once :
    (s : Summary) (now : ℕ) (m : Monitor)
    → m.enabled ≡ true
    → let k = (observe s now m).0 in
      (k.enabled ≡ true)
      × (k.configured ≡ m.configured)
      × (k.last_summary ≡ s)
      × (is_zero k.last_at ≡ false)
unfolding observe bad_window_of good_window end_containment start_containment
observe-once s now m e = ground arith

-- The count and the containment after one observation of a monitor that has seen one.
observe-window :
    (s : Summary) (now : ℕ) (m : Monitor)
    → m.enabled ≡ true
    → is_zero m.last_at ≡ false
    → (is_zero m.contained_until ≡ false
        → (policy_of m.configured).consecutive_windows ≤ m.consecutive_bad)
    → let k = (observe s now m).0 in
      let p = policy_of m.configured in
      ((failure (rtp_delta s m.last_summary) p ≡ none)
        × (k.consecutive_bad ≡ 0)
        × (k.contained_until ≡ none))
      ⊎ ((failure (rtp_delta s m.last_summary) p ≢ none)
          × (k.consecutive_bad ≡ m.consecutive_bad + 1)
          × (is_over now k.contained_until ≡ false)
          × (is_zero k.contained_until ≡ false → p.consecutive_windows ≤ k.consecutive_bad))
unfolding observe bad_window_of good_window end_containment start_containment
observe-window s now m e l c = ground arith

observe-first :
    (s : Summary) (now : ℕ) (m : Monitor)
    → IsFresh m
    → let k = (observe s now m).0 in (k.consecutive_bad ≡ 0) × (k.contained_until ≡ none)
unfolding observe
observe-first s now m f = ground arith

-- What a history leaves.
record Follows (m : Monitor) (s : Summary) (h : List (Summary × ℕ)) (k : Monitor) : Type 0 where
  still_enabled : k.enabled ≡ true
  same_policy : k.configured ≡ m.configured
  newest : k.last_summary ≡ s
  has_seen : is_zero k.last_at ≡ false
  runs : BadRun (policy_of m.configured) k.consecutive_bad h
  contained :
      is_zero k.contained_until ≡ false
      → (policy_of m.configured).consecutive_windows ≤ k.consecutive_bad

after-Follows :
    (m : Monitor) (s : Summary) (now : ℕ) (older : List (Summary × ℕ))
    → IsFresh m
    → Follows m s ((s, now) ∷ older) (after m ((s, now) ∷ older))
unfolding after BadRun
after-Follows m s now [] f =
    let (e, c, n, l) = observe-once s now m f.is_enabled in
    let (z, u) = observe-first s now m f in
    record {
      still_enabled = e;
      same_policy = c;
      newest = n;
      has_seen = l;
      runs = subst (λ x. BadRun (policy_of m.configured) x ((s, now) ∷ [])) (sym z) tt;
      contained = λ h. ground arith;
    }
after-Follows m s now ((s', now') ∷ older) f =
    let h = (s', now') ∷ older in
    let b = after m h in
    let i = after-Follows m s' now' older f in
    let p = policy_of m.configured in
    let (e, c, n, l) = observe-once s now b i.still_enabled in
    let held =
      subst
        (λ x.
          is_zero b.contained_until ≡ false → (policy_of x).consecutive_windows ≤ b.consecutive_bad)
        (sym i.same_policy) i.contained in
    let w = observe-window s now b i.still_enabled i.has_seen held in
    elim w [
      | inl (_, z, u) ↦ record {
        still_enabled = e;
        same_policy = c ∙ i.same_policy;
        newest = n;
        has_seen = l;
        runs = subst (λ x. BadRun p x ((s, now) ∷ h)) (sym z) tt;
        contained = λ d. ground arith;
      }
      | inr (g, k, _, d) ↦
          let bad : failure (rtp_delta s s') p ≢ none =
            subst₂ (λ x q. failure (rtp_delta s x) (policy_of q) ≢ none) i.newest i.same_policy g in
          let one_more : (observe s now b).0.consecutive_bad ≡ suc b.consecutive_bad =
            omega arith in
          record {
            still_enabled = e;
            same_policy = c ∙ i.same_policy;
            newest = n;
            has_seen = l;
            runs = subst (λ x. BadRun p x ((s, now) ∷ h)) (sym one_more) (bad, i.runs);
            contained =
                subst
                  (λ q.
                    is_zero (observe s now b).0.contained_until ≡ false
                    → (policy_of q).consecutive_windows ≤ (observe s now b).0.consecutive_bad)
                  i.same_policy d;
          }
    ]

BadRun-fewer : (p : Policy) (n k : ℕ) (h : List (Summary × ℕ)) → n ≤ k → BadRun p k h → BadRun p n h
unfolding BadRun
BadRun-fewer p zero k h l b = tt
BadRun-fewer p (suc n) zero h l b = ground arith
BadRun-fewer p (suc n) (suc k) [] l b = b
BadRun-fewer p (suc n) (suc k) (o ∷ []) l b = b
BadRun-fewer p (suc n) (suc k) (o ∷ o' ∷ older) l (b, bs) =
    (b, BadRun-fewer p n k (o' ∷ older) (omega arith) bs)

-- After any history that begins with an enabled monitor that has seen nothing, a containment means that at least the configured
-- number of the newest windows are all bad, so that a good window ends it.
pub containment-BadRun :
    (m : Monitor) (s : Summary) (now : ℕ) (older : List (Summary × ℕ))
    → IsFresh m
    → let h = (s, now) ∷ older in
      is_zero (after m h).contained_until ≡ false
      → BadRun (policy_of m.configured) (policy_of m.configured).consecutive_windows h
containment-BadRun m s now older f c =
    let i = after-Follows m s now older f in
    BadRun-fewer (policy_of m.configured) (policy_of m.configured).consecutive_windows
      (after m ((s, now) ∷ older)).consecutive_bad ((s, now) ∷ older) (i.contained c) i.runs

-- After any such history no containment lasts beyond its time: the newest observation does not lie after its end.
containment_in_time :
    (m : Monitor) (s : Summary) (now : ℕ) (older : List (Summary × ℕ))
    → IsFresh m
    → is_over now (after m ((s, now) ∷ older)).contained_until ≡ false
unfolding after
containment_in_time m s now [] f = let (z, u) = observe-first s now m f in ground arith
containment_in_time m s now ((s', now') ∷ older) f =
    let b = after m ((s', now') ∷ older) in
    let i = after-Follows m s' now' older f in
    let held =
      subst
        (λ x.
          is_zero b.contained_until ≡ false → (policy_of x).consecutive_windows ≤ b.consecutive_bad)
        (sym i.same_policy) i.contained in
    let w = observe-window s now b i.still_enabled i.has_seen held in ground arith
