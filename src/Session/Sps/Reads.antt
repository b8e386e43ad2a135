-- ===== src/Session/Sps/Reads.antt =====
-- The parser of internal/session/h264_sps.go reads back the fields that were written, bit by bit.
use webrtc_gateway.Base.{
  [], none, some, ℕ, ◌≤◌, List, ◌<◌, ◌+◌, ◌++◌, arith, ◌≡◌, refl, ◌^◌, ◌∙◌, subst, append_assoc,
  Option, false, ◌-◌, ◌==◌, sym, append-nil, if◌then◌else◌,
}
use webrtc_gateway.Session.Sps.Writer.{
  write_ue, write_bits, write_fields, Sps, write_order, frames_only, write_crop, crop_or_none,
  no_crop, write_bits_of,
}
use webrtc_gateway.Session.Sps.{
  ◌>>=◌, give, Parser, order_fields, has_chroma, Crop, skip_if, crop_fields, parse_size, size_of,
  chroma_of, ◌>>◌, chroma_fields,
}
use webrtc_gateway.Session.Bits.Reads.{Reads}
use webrtc_gateway.Session.Bits.{read_ue, read_bits, Reader}
use webrtc_gateway.Session.Sps.Codes.{write_bits-Reads, write_ue-Reads}

module _ {A B : Type 0} where
  bind_step :
      (m : Parser A) (f : A → Parser B) (r : Reader) {a : A} {r' : Reader}
      → m r ≡ some (a, r')
      → (m >>= f) r ≡ f a r'
  unfolding ◌>>=◌
  bind_step m f r e = rw (e, ◌>>=◌)

  pub bind-Reads :
      (m : Parser A) (f : A → Parser B) (bs cs : List ℕ) (a : A) (b : B)
      → Reads m bs a
      → Reads (f a) cs b
      → Reads (m >>= f) (bs ++ cs) b
  bind-Reads m f bs cs a b hm hf r rest at =
      let (r1, e1, at1) = hm r (cs ++ rest) (at ∙ append_assoc bs cs rest) in
      let (r2, e2, at2) = hf r1 rest at1 in (r2, bind_step m f r e1 ∙ e2, at2)

give-Reads : {A : Type 0} (a : A) → Reads (give a) [] a
unfolding give
give-Reads a r rest at = (r, refl, at)

abbrev pub OptionFits : Option ℕ → ℕ → Type 0
OptionFits none bound = Unit
OptionFits (some n) bound = n < bound

abbrev pub CropFits : Option Crop → Type 0
CropFits none = Unit
CropFits (some c) =
    (c.left + 1 < 2 ^ 32) × (c.right + 1 < 2 ^ 32) × (c.top + 1 < 2 ^ 32) × (c.bottom + 1 < 2 ^ 32)

abbrev log_of : Option ℕ → ℕ
log_of none = 0
log_of (some log) = log

-- The fields lie in the ranges of the syntax, and the profile is one with no chroma format.
pub record IsWritable (s : Sps) : Type 0 where
  pub profile_fits : s.profile < 2 ^ 8
  pub no_chroma : has_chroma s.profile ≡ false
  pub flags_fit : s.flags < 2 ^ 8
  pub level_fits : s.level < 2 ^ 8
  pub set_id_fits : s.set_id + 1 < 2 ^ 32
  pub log_frame_num_fits : s.log_frame_num + 1 < 2 ^ 32
  pub order_fits : OptionFits s.order_count (2 ^ 32 - 1)
  pub ref_frames_fit : s.ref_frames + 1 < 2 ^ 32
  pub gaps_fit : s.gaps < 2 ^ 1
  pub width_fits : s.width_mbs + 1 < 2 ^ 32
  pub height_fits : s.height_units + 1 < 2 ^ 32
  pub fields_fit : OptionFits s.fields (2 ^ 1)
  pub direct_fits : s.direct < 2 ^ 1
  pub crop_fits : CropFits s.crop

regroup :
    {A : Type 0} (m : Parser A) (xs ys zs : List ℕ) (a : A)
    → Reads m (xs ++ (ys ++ zs)) a
    → Reads m ((xs ++ ys) ++ zs) a
regroup m xs ys zs a h = subst (λ bs. Reads m bs a) (sym (append_assoc xs ys zs)) h

module _ {B : Type 0} (cs : List ℕ) (b : B) where
  order-Reads :
      (o : Option ℕ) (k : Parser B)
      → OptionFits o (2 ^ 32 - 1)
      → Reads k cs b
      → Reads (read_ue >>= λ poc. order_fields poc >>= λ _. k) (write_order o ++ cs) b
  unfolding write_order order_fields
  order-Reads none k h hk =
      bind-Reads read_ue (λ poc. order_fields poc >>= λ _. k) (write_ue 2) cs 2 b
        (write_ue-Reads 2 (omega arith)) (bind-Reads (give 0) (λ _. k) [] cs 0 b (give-Reads 0) hk)
  order-Reads (some log) k h hk = regroup _ (write_ue 0) (write_ue log) cs b (
      bind-Reads read_ue (λ poc. order_fields poc >>= λ _. k) (write_ue 0) (write_ue log ++ cs) 0 b
        (write_ue-Reads 0 (omega arith))
        (bind-Reads read_ue (λ _. k) (write_ue log) cs log b (write_ue-Reads log (omega (arith, h)))
          hk))

  fields-Reads :
      (f : Option ℕ) (k : ℕ → Parser B)
      → OptionFits f (2 ^ 1)
      → Reads (k (frames_only f)) cs b
      → Reads
          (read_bits 1 >>= λ n. skip_if (n == 0) (read_bits 1) >>= λ _. k n)
          (write_fields f ++ cs)
          b
  unfolding write_fields skip_if
  fields-Reads none k h hk =
      bind-Reads (read_bits 1) (λ n. skip_if (n == 0) (read_bits 1) >>= λ _. k n) (write_bits 1 1)
        cs 1 b (write_bits-Reads 1 1 (omega arith) (omega arith))
        (bind-Reads (give 0) (λ _. k 1) [] cs 0 b (give-Reads 0) hk)
  fields-Reads (some a) k h hk = regroup _ (write_bits 1 0) (write_bits 1 a) cs b (
      bind-Reads (read_bits 1) (λ n. skip_if (n == 0) (read_bits 1) >>= λ _. k n) (write_bits 1 0)
        (write_bits 1 a ++ cs) 0 b (write_bits-Reads 1 0 (omega arith) (omega arith))
        (bind-Reads (read_bits 1) (λ _. k 0) (write_bits 1 a) cs a b
          (write_bits-Reads 1 a (omega arith) h) hk))

-- The last parser of a sequence, whose result goes through a function.
last-Reads :
    {A B : Type 0} (m : Parser A) (g : A → B) (bs : List ℕ) (a : A)
    → Reads m bs a
    → Reads (m >>= λ x. give (g x)) bs (g a)
last-Reads {A} {B} m g bs a h =
    subst (λ cs. Reads (m >>= λ x. give (g x)) cs (g a)) (append-nil bs)
      (bind-Reads m (λ x. give (g x)) bs [] a (g a) h (give-Reads (g a)))

abbrev four : Crop → List ℕ
four c = write_ue c.left ++ (write_ue c.right ++ (write_ue c.top ++ write_ue c.bottom))

crop_fields-Reads : (c : Crop) → CropFits (some c) → Reads (crop_fields 1) (four c) c
unfolding crop_fields
crop_fields-Reads c h =
    bind-Reads read_ue _ (write_ue c.left) _ c.left c (write_ue-Reads c.left h.0) (
      bind-Reads read_ue _ (write_ue c.right) _ c.right c (write_ue-Reads c.right h.1) (
        bind-Reads read_ue _ (write_ue c.top) _ c.top c (write_ue-Reads c.top h.2) (
          last-Reads read_ue
            (λ b. record { left = c.left; right = c.right; top = c.top; bottom = b })
            (write_ue c.bottom) c.bottom (write_ue-Reads c.bottom h.3))))

crop-Reads :
    {B : Type 0} (c : Option Crop) (g : Crop → B)
    → CropFits c
    → Reads
        (read_bits 1 >>= λ n. crop_fields n >>= λ crop. give (g crop))
        (write_crop c)
        (g (crop_or_none c))
unfolding write_crop
crop-Reads {B} none g h =
    subst
      (λ bs. Reads (read_bits 1 >>= λ n. crop_fields n >>= λ crop. give (g crop)) bs (g no_crop))
      (append-nil (write_bits 1 0))
      (bind-Reads (read_bits 1) (λ n. crop_fields n >>= λ crop. give (g crop)) (write_bits 1 0) [] 0
        (g no_crop) (write_bits-Reads 1 0 (omega arith) (omega arith))
        (last-Reads (crop_fields 0) g [] no_crop (unfold crop_fields in give-Reads no_crop)))
crop-Reads {B} (some c) g h =
    bind-Reads (read_bits 1) (λ n. crop_fields n >>= λ crop. give (g crop)) (write_bits 1 1)
      (four c) 1 (g c) (write_bits-Reads 1 1 (omega arith) (omega arith))
      (last-Reads (crop_fields 1) g (four c) c (crop_fields-Reads c h))

-- The size that the fields of the set say.
abbrev pub size_from : Sps → Option (ℕ × ℕ)
size_from s = size_of 1 s.width_mbs s.height_units (frames_only s.fields) (crop_or_none s.crop)

module _ {B : Type 0} (f : ℕ → Parser B) (cs : List ℕ) (b : B) where
  bits_then :
      (n v : ℕ)
      → n ≤ 32
      → v < 2 ^ n
      → Reads (f v) cs b
      → Reads (read_bits n >>= f) (write_bits n v ++ cs) b
  bits_then n v l h k =
      bind-Reads (read_bits n) f (write_bits n v) cs v b (write_bits-Reads n v l h) k

  ue_then : (v : ℕ) → v + 1 < 2 ^ 32 → Reads (f v) cs b → Reads (read_ue >>= f) (write_ue v ++ cs) b
  ue_then v h k = bind-Reads read_ue f (write_ue v) cs v b (write_ue-Reads v h) k

chroma-Reads :
    {B : Type 0} (f : ℕ → Parser B) (p : ℕ) (cs : List ℕ) (b : B)
    → has_chroma p ≡ false
    → Reads (f 1) cs b
    → Reads (chroma_of p >>= f) cs b
unfolding chroma_of
chroma-Reads f p cs b h k =
    subst (λ c. Reads ((if c then chroma_fields else give 1) >>= f) cs b) (sym h)
      (bind-Reads (give 1) f [] cs 1 b (give-Reads 1) k)

pub parse_size-Reads : (s : Sps) → IsWritable s → Reads parse_size (write_bits_of s) (size_from s)
unfolding parse_size write_bits_of ◌>>◌
parse_size-Reads s w =
    let b = size_from s in
    let c1 = write_crop s.crop in
    let c2 = write_bits 1 s.direct ++ c1 in
    let c3 = write_fields s.fields ++ c2 in
    let c4 = write_ue s.height_units ++ c3 in
    let c5 = write_ue s.width_mbs ++ c4 in
    let c6 = write_bits 1 s.gaps ++ c5 in
    let c7 = write_ue s.ref_frames ++ c6 in
    let c8 = write_order s.order_count ++ c7 in
    let c9 = write_ue s.log_frame_num ++ c8 in
    let c10 = write_ue s.set_id ++ c9 in
    let c11 = write_bits 8 s.level ++ c10 in
    let c12 = write_bits 8 s.flags ++ c11 in
    bits_then _ c12 b 8 s.profile (omega arith) w.profile_fits (
      bits_then _ c11 b 8 s.flags (omega arith) w.flags_fit (
        bits_then _ c10 b 8 s.level (omega arith) w.level_fits (
          ue_then _ c9 b s.set_id w.set_id_fits (
            chroma-Reads _ s.profile c9 b w.no_chroma (
              ue_then _ c8 b s.log_frame_num w.log_frame_num_fits (
                order-Reads c7 b s.order_count _ w.order_fits (
                  ue_then _ c6 b s.ref_frames w.ref_frames_fit (
                    bits_then _ c5 b 1 s.gaps (omega arith) w.gaps_fit (
                      ue_then _ c4 b s.width_mbs w.width_fits (
                        ue_then _ c3 b s.height_units w.height_fits (
                          fields-Reads c2 b s.fields _ w.fields_fit (
                            bits_then _ c1 b 1 s.direct (omega arith) w.direct_fits
                              (crop-Reads s.crop _ w.crop_fits)))))))))))))
