-- ===== src/Session/Sps/BitLists.antt =====
-- What is written for a parameter set is a list of bits.
use webrtc_gateway.Base.{
  [], ◌∷◌, none, some, ℕ, List, All, Option, ◌<◌, length, All-append, ◌++◌, suc, repeat, arith, ◌/◌,
  ◌+◌, if_elim, ◌%◌, ltb, zero,
}
use webrtc_gateway.Session.Sps.Writer.{
  write_bits_of, write_crop, write_ue, write_bits, write_fields, tail_bits, write_order, Sps,
}
use webrtc_gateway.Session.Sps.{Crop}

abbrev pub IsBit : ℕ → Type 0
IsBit b = b < 2

write_bits-IsBit : (n v : ℕ) → All IsBit (write_bits n v)
unfolding write_bits
write_bits-IsBit zero v = tt
write_bits-IsBit (suc n) v =
    All-append IsBit (write_bits n (v / 2)) (v % 2 ∷ []) (write_bits-IsBit n (v / 2))
      (omega arith, tt)

tail_bits-IsBit : (f m : ℕ) → All IsBit (tail_bits f m)
unfolding tail_bits
tail_bits-IsBit zero m = tt
tail_bits-IsBit (suc f) m = if_elim (All IsBit) (ltb m 2) tt (
    All-append IsBit (tail_bits f (m / 2)) (m % 2 ∷ []) (tail_bits-IsBit f (m / 2))
      (omega arith, tt))

zeros-IsBit : (n : ℕ) → All IsBit (repeat n 0)
zeros-IsBit zero = tt
zeros-IsBit (suc n) = (omega arith, zeros-IsBit n)

write_ue-IsBit : (v : ℕ) → All IsBit (write_ue v)
unfolding write_ue
write_ue-IsBit v =
    All-append IsBit (repeat (length (tail_bits 31 (v + 1))) 0) (1 ∷ tail_bits 31 (v + 1))
      (zeros-IsBit (length (tail_bits 31 (v + 1)))) (omega arith, tail_bits-IsBit 31 (v + 1))

pub and_then : (xs ys : List ℕ) → All IsBit xs → All IsBit ys → All IsBit (xs ++ ys)
and_then xs ys h k = All-append IsBit xs ys h k

write_order-IsBit : (o : Option ℕ) → All IsBit (write_order o)
unfolding write_order
write_order-IsBit none = write_ue-IsBit 2
write_order-IsBit (some log) =
    and_then (write_ue 0) (write_ue log) (write_ue-IsBit 0) (write_ue-IsBit log)

write_fields-IsBit : (f : Option ℕ) → All IsBit (write_fields f)
unfolding write_fields
write_fields-IsBit none = write_bits-IsBit 1 1
write_fields-IsBit (some a) =
    and_then (write_bits 1 0) (write_bits 1 a) (write_bits-IsBit 1 0) (write_bits-IsBit 1 a)

write_crop-IsBit : (c : Option Crop) → All IsBit (write_crop c)
unfolding write_crop
write_crop-IsBit none = write_bits-IsBit 1 0
write_crop-IsBit (some c) = and_then (write_bits 1 1) _ (write_bits-IsBit 1 1) (
    and_then (write_ue c.left) _ (write_ue-IsBit c.left) (
      and_then (write_ue c.right) _ (write_ue-IsBit c.right) (
        and_then (write_ue c.top) (write_ue c.bottom) (write_ue-IsBit c.top)
          (write_ue-IsBit c.bottom))))

pub write_bits_of-IsBit : (s : Sps) → All IsBit (write_bits_of s)
unfolding write_bits_of
write_bits_of-IsBit s =
    let c1 = write_crop s.crop in
    let c2 = write_bits 1 s.direct ++ c1 in
    let c3 = write_fields s.fields ++ c2 in
    let c4 = write_ue s.height_units ++ c3 in
    let c5 = write_ue s.width_mbs ++ c4 in
    let c6 = write_bits 1 s.gaps ++ c5 in
    let c7 = write_ue s.ref_frames ++ c6 in
    let c8 = write_order s.order_count ++ c7 in
    let c9 = write_ue s.log_frame_num ++ c8 in
    let c10 = write_ue s.set_id ++ c9 in
    let c11 = write_bits 8 s.level ++ c10 in
    let c12 = write_bits 8 s.flags ++ c11 in
    and_then (write_bits 8 s.profile) c12 (write_bits-IsBit 8 s.profile) (
      and_then (write_bits 8 s.flags) c11 (write_bits-IsBit 8 s.flags) (
        and_then (write_bits 8 s.level) c10 (write_bits-IsBit 8 s.level) (
          and_then (write_ue s.set_id) c9 (write_ue-IsBit s.set_id) (
            and_then (write_ue s.log_frame_num) c8 (write_ue-IsBit s.log_frame_num) (
              and_then (write_order s.order_count) c7 (write_order-IsBit s.order_count) (
                and_then (write_ue s.ref_frames) c6 (write_ue-IsBit s.ref_frames) (
                  and_then (write_bits 1 s.gaps) c5 (write_bits-IsBit 1 s.gaps) (
                    and_then (write_ue s.width_mbs) c4 (write_ue-IsBit s.width_mbs) (
                      and_then (write_ue s.height_units) c3 (write_ue-IsBit s.height_units) (
                        and_then (write_fields s.fields) c2 (write_fields-IsBit s.fields) (
                          and_then (write_bits 1 s.direct) c1 (write_bits-IsBit 1 s.direct)
                            (write_crop-IsBit s.crop))))))))))))
