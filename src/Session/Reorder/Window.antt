-- ===== src/Session/Reorder/Window.antt =====
-- The packets that a reorder buffer holds: a map from sequence numbers, as an association list.
use webrtc_gateway.Base.{
  ℕ, zero, suc, ◌+◌, ◌≤◌, ◌<◌, ◌≡◌, ◌≢◌, refl, ◌^◌, inl, inr, Bool, Bool-cases, ==→eq, Option, none,
  some, List, [], ◌∷◌, arith, ◌==◌, if◌then◌else◌, length, All, u16, sub16,
}

pub record Entry : Type 0 where
  pub payload : List ℕ
  pub is_keyframe : Bool

abbrev pub Packets : Type 0
Packets = List (ℕ × Entry)

unfoldable pub lookup : ℕ → Packets → Option Entry
lookup k [] = none
lookup k ((j, e) ∷ m) = if j == k then some e else lookup k m

unfoldable pub delete : ℕ → Packets → Packets
delete k [] = []
delete k ((j, e) ∷ m) = if j == k then delete k m else (j, e) ∷ delete k m

-- Every packet lies in the `n` sequence numbers from `s` on.
abbrev pub InWindow : ℕ → ℕ → ℕ × Entry → Type 0
InWindow n s p = (p.0 < 2 ^ 16) × (sub16 p.0 s < n)

abbrev pub Absent : ℕ → Packets → Type 0
Absent k = All (λ p. p.0 ≢ k)

-- Each sequence number is held once, as in a Go map.
abbrev pub Distinct : Packets → Type 0
Distinct [] = Unit
Distinct ((k, e) ∷ m) = Absent k m × Distinct m

pub lookup-delete :
    (j k : ℕ) (m : Packets) → lookup j (delete k m) ≡ (if k == j then none else lookup j m)
unfolding lookup delete
lookup-delete j k [] = ground arith
lookup-delete j k ((i, e) ∷ m) = ground (arith, lookup-delete j k m)

pub lookup-none : (k : ℕ) (m : Packets) → lookup k m ≡ none → Absent k m
unfolding lookup
lookup-none k [] h = tt
lookup-none k ((j, e) ∷ m) h = ground (arith, lookup-none k m)

pub Absent-lookup : (k : ℕ) (m : Packets) → Absent k m → lookup k m ≡ none
unfolding lookup
Absent-lookup k [] h = refl
Absent-lookup k ((j, e) ∷ m) h = ground (arith, Absent-lookup k m h.1)

pub delete-Absent : (k j : ℕ) (m : Packets) → Absent j m → Absent j (delete k m)
unfolding delete
delete-Absent k j [] h = tt
delete-Absent k j ((i, e) ∷ m) h = ground (arith, delete-Absent k j m h.1)

pub delete-Distinct : (k : ℕ) (m : Packets) → Distinct m → Distinct (delete k m)
unfolding delete
delete-Distinct k [] h = tt
delete-Distinct k ((j, e) ∷ m) h = ground (arith, delete-Distinct k m h.1, delete-Absent k j m h.0)

pub delete_unheld : (k : ℕ) (m : Packets) → Absent k m → delete k m ≡ m
unfolding delete
delete_unheld k [] h = refl
delete_unheld k ((j, e) ∷ m) h = ground (arith, delete_unheld k m h.1)

pub length-delete :
    (k : ℕ) (e : Entry) (m : Packets)
    → Distinct m
    → lookup k m ≡ some e
    → length (delete k m) + 1 ≡ length m
unfolding lookup delete
length-delete k e [] d h = cc
length-delete k e ((j, x) ∷ m) d h = elim (Bool-cases (j == k)) [
  | inl hit ↦ rw hit (ground (arith, delete_unheld k m, ==→eq j k hit, d.0))
  | inr miss ↦ ground (arith, length-delete k e m d.1)
]

-- Once `s` is gone, one step on leaves a window that is one shorter.
pub delete-InWindow :
    (n s : ℕ) (m : Packets)
    → s < 2 ^ 16
    → n < 2 ^ 16
    → All (InWindow (suc n) s) m
    → All (InWindow n (u16 (s + 1))) (delete s m)
unfolding delete
delete-InWindow n s [] hs hn w = tt
delete-InWindow n s ((k, e) ∷ m) hs hn w = ground (arith, delete-InWindow n s m hs hn w.1)

pub InWindow-weaken :
    (n n' s : ℕ) (m : Packets) → n ≤ n' → All (InWindow n s) m → All (InWindow n' s) m
InWindow-weaken n n' s [] h w = tt
InWindow-weaken n n' s (p ∷ m) h w = ((w.0.0, omega arith), InWindow-weaken n n' s m h w.1)

pub slide-InWindow :
    (n s : ℕ) (m : Packets)
    → s < 2 ^ 16
    → All (InWindow n s) m
    → All (InWindow n (u16 (s + 1))) (delete s m)
unfolding delete
slide-InWindow n s [] hs w = tt
slide-InWindow n s ((k, e) ∷ m) hs w = ground (arith, slide-InWindow n s m hs w.1)

-- The packets held at `s`, `s + 1`, … for `n` numbers, in that order.
unfoldable pub collect : ℕ → ℕ → Packets → List Entry
collect zero s m = []
collect (suc n) s m = elim (lookup s m) [
  | none ↦ collect n (u16 (s + 1)) m
  | some e ↦ e ∷ collect n (u16 (s + 1)) m
]

pub collect-delete :
    (k n s : ℕ) (m : Packets)
    → k < 2 ^ 16
    → s < 2 ^ 16
    → n ≤ sub16 k s
    → collect n s (delete k m) ≡ collect n s m
unfolding collect
collect-delete k zero s m hk hs h = refl
collect-delete k (suc n) s m hk hs h =
    ground (arith, lookup-delete s k m, collect-delete k n (u16 (s + 1)) m)

pub lookup_outside :
    (k n s : ℕ) (m : Packets) → All (InWindow n s) m → n ≤ sub16 k s → lookup k m ≡ none
unfolding lookup
lookup_outside k n s [] w h = refl
lookup_outside k n s ((j, e) ∷ m) w h = ground (arith, lookup_outside k n s m w.1)
