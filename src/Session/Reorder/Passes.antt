-- ===== src/Session/Reorder/Passes.antt =====
-- What the two flush loops of internal/session/reorder_buffer.go do to the window: they pass over
-- a run of sequence numbers, and hand out the packets held there in order.
use webrtc_gateway.Base.{
  ℕ, zero, suc, ◌+◌, ◌^◌, ◌≤◌, ◌<◌, ◌≡◌, refl, Bool, true, Option-cases, inl, inr, none, some, [],
  ◌∷◌, map, arith, ltb, if◌then◌else◌, length, All, u16, sub16, subst, eq→==, ne→==,
}
use webrtc_gateway.Session.Reorder.Window.{
  Entry, Packets, InWindow, Distinct, Absent-lookup, lookup, delete, collect, lookup-delete,
  lookup-none, length-delete, delete-Distinct, delete_unheld, slide-InWindow, collect-delete,
}
use webrtc_gateway.Session.Reorder.{Write, Flush, to_write, flush_loop, force_loop}

abbrev pub entry_of : Write → Entry
entry_of w = record { payload = w.payload; is_keyframe = w.is_keyframe }

module _ (w : ℕ) where
  -- `f` is what is left of `m` once the numbers `s`, …, `s + n - 1` have been passed.
  pub record Passes (n : ℕ) (m : Packets) (s : ℕ) (f : Flush) : Type 0 where
    pub at : f.next ≡ u16 (s + n)
    pub entries : map entry_of f.out ≡ collect n s m
    pub tally : f.skipped + length f.out ≡ n
    pub kept : length f.left + length f.out ≡ length m
    pub window : All (InWindow w f.next) f.left
    pub distinct : Distinct f.left
    pub rest :
        (j : ℕ) → j < 2 ^ 16 → lookup j f.left ≡ (if ltb (sub16 j s) n then none else lookup j m)

  pub Passes-zero :
      (m : Packets) (s : ℕ)
      → s < 2 ^ 16
      → All (InWindow w s) m
      → Distinct m
      → Passes 0 m s (record { left = m; next = s; out = []; skipped = 0 })
  unfolding collect
  Passes-zero m s hs h d = record {
    at = omega arith;
    entries = refl;
    tally = omega arith;
    kept = omega arith;
    window = h;
    distinct = d;
    rest = λ j hj. ground arith;
  }

  pub Passes-hit :
      (n : ℕ) (m : Packets) (s : ℕ) (e : Entry) (paced : Bool) (f : Flush)
      → s < 2 ^ 16
      → n < 2 ^ 16
      → Distinct m
      → lookup s m ≡ some e
      → Passes n (delete s m) (u16 (s + 1)) f
      → Passes (suc n) m s (record f { out = to_write paced e ∷ f.out })
  unfolding to_write collect
  Passes-hit n m s e paced f hs hn d h p = record {
    at = omega (arith, p.at);
    entries = ground (arith, p.entries, collect-delete s n (u16 (s + 1)) m);
    tally = omega (arith, p.tally);
    kept = omega (arith, p.kept, length-delete s e m d h);
    window = p.window;
    distinct = p.distinct;
    rest = λ j hj. ground (arith, p.rest j, lookup-delete j s m);
  }

  pub Passes-miss :
      (n : ℕ) (m : Packets) (s : ℕ) (f : Flush)
      → s < 2 ^ 16
      → n < 2 ^ 16
      → lookup s m ≡ none
      → Passes n m (u16 (s + 1)) f
      → Passes (suc n) m s (record f { skipped = f.skipped + 1 })
  unfolding collect
  Passes-miss n m s f hs hn h p = record {
    at = omega (arith, p.at);
    entries = ground (arith, p.entries);
    tally = omega (arith, p.tally);
    kept = omega (arith, p.kept);
    window = p.window;
    distinct = p.distinct;
    rest = λ j hj. ground (arith, p.rest j);
  }

  -- The loop stops at the first number that is not held, after a round for each packet at most.
  pub flush_loop_lem :
      (fuel : ℕ) (m : Packets) (s : ℕ)
      → s < 2 ^ 16
      → fuel < 2 ^ 16
      → length m ≤ fuel
      → All (InWindow w s) m
      → Distinct m
      → let f = flush_loop fuel m s in
        Passes (length f.out) m s f × (lookup f.next f.left ≡ none) × (f.skipped ≡ 0)
  unfolding flush_loop
  flush_loop_lem zero [] s hs hf l h d = (Passes-zero [] s hs tt tt, Absent-lookup s [] tt, refl)
  flush_loop_lem zero (p ∷ m) s hs hf l h d = absurd (omega arith)
  flush_loop_lem (suc fuel) m s hs hf l h d = elim (Option-cases (lookup s m)) [
    | inl miss ↦ rw (miss, flush_loop) (Passes-zero m s hs h d, miss, refl)
    | inr (e, hit) ↦
        let rest =
          flush_loop_lem fuel (delete s m) (u16 (s + 1)) (omega arith) (omega arith)
            (omega (arith, length-delete s e m d hit)) (slide-InWindow w s m hs h)
            (delete-Distinct s m d) in
        rw (hit, flush_loop)
          (
            Passes-hit _ m s e true _ hs (omega (arith, rest.0.kept, length-delete s e m d hit)) d
                hit rest.0,
            rest.1,
            rest.2,
          )
  ]

  -- The loop reaches its target, and passes over every number before it.
  pub force_loop_lem :
      (n fuel target : ℕ) (m : Packets) (s : ℕ)
      → s < 2 ^ 16
      → target < 2 ^ 16
      → n ≡ sub16 target s
      → n ≤ fuel
      → All (InWindow w s) m
      → Distinct m
      → Passes n m s (force_loop fuel target m s)
  unfolding force_loop
  force_loop_lem zero zero target m s hs ht e l h d = Passes-zero m s hs h d
  force_loop_lem zero (suc fuel) target m s hs ht e l h d =
      rw (eq→== s target (omega arith), force_loop) (Passes-zero m s hs h d)
  force_loop_lem (suc n) zero target m s hs ht e l h d = absurd (omega arith)
  force_loop_lem (suc n) (suc fuel) target m s hs ht e l h d = elim (Option-cases (lookup s m)) [
    | inl miss ↦
        rw (ne→== s target (omega arith), miss, force_loop)
          (Passes-miss n m s _ hs (omega arith) miss (
            force_loop_lem n fuel target m (u16 (s + 1)) (omega arith) ht (omega arith)
              (omega arith)
              (subst (All (InWindow w (u16 (s + 1)))) (delete_unheld s m (lookup-none s m miss))
                (slide-InWindow w s m hs h))
              d))
    | inr (x, hit) ↦
        rw (ne→== s target (omega arith), hit, force_loop)
          (Passes-hit n m s x true _ hs (omega arith) d hit (
            force_loop_lem n fuel target (delete s m) (u16 (s + 1)) (omega arith) ht (omega arith)
              (omega arith) (slide-InWindow w s m hs h) (delete-Distinct s m d)))
  ]
