-- ===== src/Session/Sps/Codes.antt =====
-- Numbers written in bits and in Exp-Golomb code are read back (internal/session/h264_sps.go).
use native.Mathlib.Nat.{two-pow-succ}
use webrtc_gateway.Base.{
  [], ◌∷◌, ℕ, ◌≤◌, List, ◌<◌, ◌+◌, length, ◌++◌, arith, ◌≡◌, refl, ◌^◌, ◌*◌, suc, subst, subst₂,
  length-append, ◌/◌, if_cases, ◌%◌, ltb, zero,
}
use webrtc_gateway.Session.Sps.Writer.{tail_bits, write_ue, write_bits}
use webrtc_gateway.Session.Bits.Reads.{Reads, number, read_bits-Reads, code_of, read_ue-Reads}
use webrtc_gateway.Session.Bits.{read_ue, read_bits}

number-append :
    (acc : ℕ) (xs : List ℕ) (b : ℕ) → number acc (xs ++ (b ∷ [])) ≡ number acc xs * 2 + b
number-append acc [] b = refl
number-append acc (x ∷ xs) b = number-append (acc * 2 + x) xs b

pub length-write_bits : (n v : ℕ) → length (write_bits n v) ≡ n
unfolding write_bits
length-write_bits zero v = refl
length-write_bits (suc n) v =
    omega (arith, length-append (write_bits n (v / 2)) (v % 2 ∷ []), length-write_bits n (v / 2))

number-write_bits : (n v : ℕ) → v < 2 ^ n → number 0 (write_bits n v) ≡ v
unfolding write_bits
number-write_bits zero v h = omega arith
number-write_bits (suc n) v h = omega (
  arith,
  number-append 0 (write_bits n (v / 2)) (v % 2),
  number-write_bits n (v / 2) (omega (arith, two-pow-succ n)),
)

length-tail_bits : (f m : ℕ) → length (tail_bits f m) ≤ f
unfolding tail_bits
length-tail_bits zero m = omega arith
length-tail_bits (suc f) m =
    ground (arith, length-append (tail_bits f (m / 2)) (m % 2 ∷ []), length-tail_bits f (m / 2))

number-tail_bits : (f m : ℕ) → 0 < m → m < 2 ^ suc f → number 1 (tail_bits f m) ≡ m
unfolding tail_bits
number-tail_bits zero m p h = omega arith
number-tail_bits (suc f) m p h =
    if_cases (λ bs. number 1 bs ≡ m) (ltb m 2) (λ e. ground arith)
      (λ e. omega (
        arith,
        number-append 1 (tail_bits f (m / 2)) (m % 2),
        number-tail_bits f (m / 2) (ground arith) (omega (arith, two-pow-succ (suc f))),
      ))

pub write_bits-Reads : (n v : ℕ) → n ≤ 32 → v < 2 ^ n → Reads (read_bits n) (write_bits n v) v
write_bits-Reads n v l h =
    subst₂ (λ k w. Reads (read_bits k) (write_bits n v) w) (length-write_bits n v)
      (number-write_bits n v h)
      (read_bits-Reads (write_bits n v) (omega (arith, length-write_bits n v)))

-- What is written in Exp-Golomb code is read back, and the reader stands behind it.
pub write_ue-Reads : (v : ℕ) → v + 1 < 2 ^ 32 → Reads read_ue (write_ue v) v
unfolding write_ue
write_ue-Reads v h =
    subst (λ w. Reads read_ue (code_of (tail_bits 31 (v + 1))) w)
      (omega (arith, number-tail_bits 31 (v + 1) (omega arith) h))
      (read_ue-Reads (tail_bits 31 (v + 1)) (length-tail_bits 31 (v + 1)))
