-- ===== src/Session/Bits/Reads.antt =====
-- The bit reader of internal/session/h264_sps.go as a parser of a list of bits.
use native.Mathlib.Nat.{one-le-pow}
use webrtc_gateway.Base.{
  [], ◌∷◌, some, List, ℕ, ◌/◌, Option, length, ◌<◌, drop, arith, ◌++◌, ◌≡◌, ◌+◌, ◌*◌, ◌^◌, refl,
  get_or, ◌%◌, suc, ◌-◌, zero, ◌≤◌, repeat, ◌∙◌, ap, append_assoc, sym,
}
use webrtc_gateway.Session.Bits.{Reader, bit, bits_loop, read_bits, nulls_loop, read_ue}

-- The bits of a list of bytes, the highest bit of a byte first.
abbrev pub bits_of : ℕ → List ℕ
bits_of b =
    (b / 2 ^ 7) % 2
    ∷ (b / 2 ^ 6) % 2
    ∷ (b / 2 ^ 5) % 2
    ∷ (b / 2 ^ 4) % 2
    ∷ (b / 2 ^ 3) % 2
    ∷ (b / 2 ^ 2) % 2
    ∷ (b / 2 ^ 1) % 2
    ∷ (b / 2 ^ 0) % 2
    ∷ []

unfoldable pub unpack : List ℕ → List ℕ
unpack [] = []
unpack (b ∷ bs) = bits_of b ++ unpack bs

-- What a reader has still to read.
abbrev pub At : Reader → List ℕ → Type 0
At r bs = drop r.pos (unpack r.bytes) ≡ bs

-- Where the reader stands before the bits `bs`, the parser takes them and gives `a`.
abbrev pub Reads : {A : Type 0} → (Reader → Option (A × Reader)) → List ℕ → A → Type 0
Reads {A} m bs a =
    (r : Reader) (rest : List ℕ)
    → At r (bs ++ rest)
    → (r' : Reader) × (m r ≡ some (a, r')) × At r' rest

pub length-unpack : (bs : List ℕ) → length (unpack bs) ≡ length bs * 8
unfolding unpack
length-unpack [] = refl
length-unpack (b ∷ bs) = omega (arith, length-unpack bs)

get_or-unpack :
    (bs : List ℕ) (i : ℕ)
    → i < length bs * 8
    → get_or (unpack bs) i 0 ≡ (get_or bs (i / 8) 0 / 2 ^ (7 - i % 8)) % 2
unfolding unpack
get_or-unpack [] i h = absurd (omega arith)
get_or-unpack (b ∷ bs) zero h = refl
get_or-unpack (b ∷ bs) (suc zero) h = refl
get_or-unpack (b ∷ bs) (suc (suc zero)) h = refl
get_or-unpack (b ∷ bs) (suc (suc (suc zero))) h = refl
get_or-unpack (b ∷ bs) (suc (suc (suc (suc zero)))) h = refl
get_or-unpack (b ∷ bs) (suc (suc (suc (suc (suc zero))))) h = refl
get_or-unpack (b ∷ bs) (suc (suc (suc (suc (suc (suc zero)))))) h = refl
get_or-unpack (b ∷ bs) (suc (suc (suc (suc (suc (suc (suc zero))))))) h = refl
get_or-unpack (b ∷ bs) (suc (suc (suc (suc (suc (suc (suc (suc i)))))))) h =
    let ih = get_or-unpack bs i (omega arith) in
    let q : suc (suc (suc (suc (suc (suc (suc (suc i))))))) / 8 ≡ suc (i / 8) = omega arith in
    let m : suc (suc (suc (suc (suc (suc (suc (suc i))))))) % 8 ≡ i % 8 = omega arith in
    rw (q, m) ih

drop-cons :
    (n : ℕ) (xs : List ℕ) (b : ℕ) (bs : List ℕ)
    → drop n xs ≡ b ∷ bs
    → (n < length xs) × (get_or xs n 0 ≡ b) × (drop (n + 1) xs ≡ bs)
drop-cons zero [] b bs e = ground arith
drop-cons zero (x ∷ xs) b bs e = ground arith
drop-cons (suc n) [] b bs e = ground arith
drop-cons (suc n) (x ∷ xs) b bs e = ground (arith, drop-cons n xs b bs e)

pub bit-Reads : (b : ℕ) → Reads bit (b ∷ []) b
unfolding bit
bit-Reads b r rest at =
    let d = drop-cons r.pos (unpack r.bytes) b rest at in
    let g = get_or-unpack r.bytes r.pos (omega (arith, d, length-unpack r.bytes)) in
    (record r { pos = r.pos + 1 }, ground (arith, d, g, length-unpack r.bytes), d.2)

-- The number that bits stand for after the number `acc`.
abbrev pub number : ℕ → List ℕ → ℕ
number acc [] = acc
number acc (b ∷ bs) = number (acc * 2 + b) bs

bits_step :
    (n acc : ℕ) (r : Reader) {b : ℕ} {r' : Reader}
    → bit r ≡ some (b, r')
    → bits_loop (suc n) acc r ≡ bits_loop n (acc * 2 + b) r'
unfolding bits_loop
bits_step n acc r e = rw (e, bits_loop)

nulls_end :
    (fuel nulls : ℕ) (r : Reader) {r' : Reader}
    → bit r ≡ some (1, r')
    → nulls_loop (suc fuel) nulls r ≡ some (nulls, r')
unfolding nulls_loop
nulls_end fuel nulls r e = rw (e, nulls_loop)

nulls_step :
    (fuel nulls : ℕ) (r : Reader) {r' : Reader}
    → bit r ≡ some (0, r')
    → nulls + 1 ≤ 31
    → nulls_loop (suc fuel) nulls r ≡ nulls_loop fuel (nulls + 1) r'
unfolding nulls_loop
nulls_step fuel nulls r e l = ground arith

bits_loop-Reads : (bs : List ℕ) (acc : ℕ) → Reads (bits_loop (length bs) acc) bs (number acc bs)
bits_loop-Reads [] acc r rest at = (r, unfold bits_loop in refl, at)
bits_loop-Reads (b ∷ bs) acc r rest at =
    let (r1, e1, at1) = bit-Reads b r (bs ++ rest) at in
    let (r2, e2, at2) = bits_loop-Reads bs (acc * 2 + b) r1 rest at1 in
    (r2, bits_step (length bs) acc r e1 ∙ e2, at2)

pub read_bits-Reads :
    (bs : List ℕ) → length bs ≤ 32 → Reads (read_bits (length bs)) bs (number 0 bs)
unfolding read_bits
read_bits-Reads bs l r rest at =
    let (r', e, at') = bits_loop-Reads bs 0 r rest at in (r', ground (arith, e), at')

nulls_loop-Reads :
    (k fuel nulls : ℕ)
    → k < fuel
    → k + nulls ≤ 31
    → Reads (nulls_loop fuel nulls) (repeat k 0 ++ (1 ∷ [])) (k + nulls)
nulls_loop-Reads k zero nulls f l r rest at = absurd (omega arith)
nulls_loop-Reads zero (suc fuel) nulls f l r rest at =
    let (r1, e1, at1) = bit-Reads 1 r rest at in
    (r1, nulls_end fuel nulls r e1 ∙ ap (λ (n : ℕ). some (n, r1)) (omega arith), at1)
nulls_loop-Reads (suc k) (suc fuel) nulls f l r rest at =
    let (r1, e1, at1) = bit-Reads 0 r ((repeat k 0 ++ (1 ∷ [])) ++ rest) at in
    let (r2, e2, at2) =
      nulls_loop-Reads k fuel (nulls + 1) (omega arith) (omega arith) r1 rest at1 in
    (
      r2,
      nulls_step fuel nulls r e1 (omega arith) ∙ e2 ∙ ap (λ (n : ℕ). some (n, r2)) (omega arith),
      at2,
    )

number_lead : (acc : ℕ) (bs : List ℕ) → number acc bs ≡ acc * 2 ^ length bs + number 0 bs
number_lead acc [] = omega arith
number_lead acc (b ∷ bs) = grind (arith, number_lead (acc * 2 + b) bs, number_lead (0 * 2 + b) bs)

pub pow_pos : (n : ℕ) → 0 < 2 ^ n
pow_pos n = one-le-pow n 2 (omega arith)

-- The Exp-Golomb code of the number whose successor has the binary digits 1 and `bs`.
abbrev pub code_of : List ℕ → List ℕ
code_of bs = repeat (length bs) 0 ++ (1 ∷ bs)

read_ue_end :
    (r : Reader) {r' : Reader} → nulls_loop 32 0 r ≡ some (0, r') → read_ue r ≡ some (0, r')
unfolding read_ue
read_ue_end r e = rw (e, read_ue)

read_ue_rest :
    (k v : ℕ) (r r' : Reader) {r'' : Reader}
    → nulls_loop 32 0 r ≡ some (suc k, r')
    → read_bits (suc k) r' ≡ some (v, r'')
    → read_ue r ≡ some (2 ^ suc k - 1 + v, r'')
unfolding read_ue
read_ue_rest k v r r' e f = ground arith

pub read_ue-Reads : (bs : List ℕ) → length bs ≤ 31 → Reads read_ue (code_of bs) (number 1 bs - 1)
read_ue-Reads [] l r rest at =
    let (r1, e1, at1) = nulls_loop-Reads 0 32 0 (omega arith) (omega arith) r rest at in
    (r1, read_ue_end r e1, at1)
read_ue-Reads (b ∷ bs) l r rest at =
    let k = length (b ∷ bs) in
    let (r1, e1, at1) = nulls_loop-Reads k 32 0 (omega arith) (omega arith) r ((b ∷ bs) ++ rest) (
      at
      ∙ append_assoc (repeat k 0) (1 ∷ b ∷ bs) rest
      ∙ sym (append_assoc (repeat k 0) (1 ∷ []) ((b ∷ bs) ++ rest))) in
    let (r2, e2, at2) = read_bits-Reads (b ∷ bs) (omega arith) r1 rest at1 in
    (
      r2,
      read_ue_rest (length bs) _ r r1 (e1 ∙ ap (λ (n : ℕ). some (n, r1)) (omega arith)) e2
          ∙ ap (λ (n : ℕ). some (n, r2))
              (omega (arith, number_lead 1 (b ∷ bs), pow_pos (suc (length bs)))),
      at2,
    )
