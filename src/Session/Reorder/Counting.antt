-- ===== src/Session/Reorder/Counting.antt =====
-- How many packets a window of internal/session/reorder_buffer.go can hold, and which of them a
-- run of sequence numbers takes.
use webrtc_gateway.Base.{
  ℕ, zero, suc, ◌+◌, ◌^◌, ◌≤◌, ◌<◌, ◌≡◌, refl, none, [], ◌∷◌, ◌++◌, arith, length, All, u16, sub16,
  ap, ◌∙◌,
}
use webrtc_gateway.Session.Reorder.Window.{
  Packets, InWindow, Distinct, lookup, delete, collect, delete-InWindow, delete-Distinct,
  delete_unheld,
}

length-le-delete : (k : ℕ) (m : Packets) → Distinct m → length m ≤ length (delete k m) + 1
unfolding delete
length-le-delete k [] d = omega arith
length-le-delete k ((j, e) ∷ m) d = ground (arith, length-le-delete k m d.1, delete_unheld k m)

-- Distinct numbers in a window of `n` are at most `n`.
pub length-InWindow :
    (n s : ℕ) (m : Packets)
    → s < 2 ^ 16
    → n ≤ 2 ^ 16
    → All (InWindow n s) m
    → Distinct m
    → length m ≤ n
length-InWindow n s [] hs hn w d = omega arith
length-InWindow zero s (p ∷ m) hs hn w d = absurd (omega arith)
length-InWindow (suc n) s (p ∷ m) hs hn w d = omega (
  arith,
  length-le-delete s (p ∷ m) d,
  length-InWindow n (u16 (s + 1)) (delete s (p ∷ m)) (omega arith) (omega arith)
      (delete-InWindow n s (p ∷ m) hs (omega arith) w) (delete-Distinct s (p ∷ m) d),
)

-- A run depends only on what is held at its numbers.
pub collect_ext :
    (n s : ℕ) (m m' : Packets)
    → s < 2 ^ 16
    → n ≤ 2 ^ 16
    → ((j : ℕ) → j < 2 ^ 16 → sub16 j s < n → lookup j m ≡ lookup j m')
    → collect n s m ≡ collect n s m'
unfolding collect
collect_ext zero s m m' hs hn h = refl
collect_ext (suc n) s m m' hs hn h = ground (
  arith,
  h s hs (omega arith),
  collect_ext n (u16 (s + 1)) m m' (omega arith) (omega arith) (λ j hj l. h j hj (omega arith)),
)

pub collect_add :
    (k n s t : ℕ) (m : Packets)
    → s < 2 ^ 16
    → t ≡ u16 (s + k)
    → collect (k + n) s m ≡ collect k s m ++ collect n t m
unfolding collect
collect_add zero n s t m hs e =
    ap (λ j. collect j s m) (omega arith) ∙ ap (λ j. collect n j m) (omega arith)
collect_add (suc k) n s t m hs e =
    ap (λ j. collect j s m) start
    ∙ ground (arith, collect_add k n (u16 (s + 1)) t m (omega arith) (omega arith))
  where
    start : suc k + n ≡ suc (k + n)
    start = omega arith

-- Nothing is held from `s` on for `n` numbers.
pub collect-none :
    (n s : ℕ) (m : Packets)
    → s < 2 ^ 16
    → n ≤ 2 ^ 16
    → ((j : ℕ) → j < 2 ^ 16 → sub16 j s < n → lookup j m ≡ none)
    → collect n s m ≡ []
unfolding collect
collect-none zero s m hs hn h = refl
collect-none (suc n) s m hs hn h = ground (
  arith,
  h s hs (omega arith),
  collect-none n (u16 (s + 1)) m (omega arith) (omega arith) (λ j hj l. h j hj (omega arith)),
)
