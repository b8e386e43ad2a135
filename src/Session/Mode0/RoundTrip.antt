-- ===== src/Session/Mode0/RoundTrip.antt =====
-- A NAL unit that is cut into FU-A packets comes out of internal/session/h264_mode0.go as one packet with the
-- same bytes.
use webrtc_gateway.Session.Mode0.{
  buffered, push, Reassembler, push_fragment, start_unit, settle, goes_on, reset, max_nal_payload,
  gives, waits, reassembled, low5, Mode0Decision,
}
use webrtc_gateway.Base.{
  ℕ, arith, Bool, true, false, [], ◌∷◌, ◌++◌, refl, List, u16, ◌/◌, ◌+◌, ◌≡◌, ◌*◌, ◌%◌, ◌<◌, ◌≤◌,
  length, ◌&&◌, subst, All, length-append, sym, append-nil, append_assoc, ap₂,
}
use webrtc_gateway.Session.Rtp.{Packet}

-- A fragment (RFC 6184, 5.8) of the NAL unit with the header `h`: `bits` is 128 for the first, 64 for the last and 0
-- between them.
unfoldable pub cut : ℕ → ℕ → List ℕ → Packet → Packet
cut h bits chunk p = record p { payload = (h / 32 * 32 + 28) ∷ (bits + h % 32) ∷ chunk }

-- The fragments between the first and the last, which count the sequence numbers on.
unfoldable pub middles : ℕ → List (List ℕ) → Packet → List Packet
middles h [] p = []
middles h (c ∷ cs) p =
    let q = record p { sequence_number = u16 (p.sequence_number + 1) } in
    cut h 0 c q ∷ middles h cs q

abbrev pub next : Packet → Packet
next p = record p { sequence_number = u16 (p.sequence_number + 1) }

-- The packet whose header the last fragment follows.
unfoldable pub after : List (List ℕ) → Packet → Packet
after [] p = p
after (c ∷ cs) p = after cs (next p)

unfoldable pub joined : List (List ℕ) → List ℕ
joined [] = []
joined (c ∷ cs) = c ++ joined cs

abbrev is_waiting : Mode0Decision → Bool
is_waiting d = elim d.result [ buffered ↦ true | _ ↦ false ]

-- The state after the packets, and whether each was held back.
pub feed : List Packet → Reassembler → Reassembler × Bool
feed [] r = (r, true)
feed (p ∷ ps) r = let (s, d) = push p r in let (k, ok) = feed ps s in (k, is_waiting d && ok)

-- What the reassembler holds of the NAL unit with the header `h`.
record Holds (h : ℕ) (bytes : List ℕ) (p : Packet) (r : Reassembler) : Type 0 where
  is_active : r.active ≡ true
  same_ssrc : r.ssrc ≡ p.ssrc
  same_timestamp : r.timestamp ≡ p.timestamp
  awaits : r.next_seq ≡ u16 (p.sequence_number + 1)
  same_type : r.payload_type ≡ p.payload_type
  holds : r.nal ≡ h ∷ bytes

push-start :
    (h : ℕ) (chunk : List ℕ) (p : Packet) (r : Reassembler)
    → h < 256
    → 1 ≤ length chunk
    → length chunk < max_nal_payload
    → let (s, d) = push (cut h 128 chunk p) r in Holds h chunk p s × (d ≡ waits)
unfolding push push_fragment start_unit settle cut reset
push-start h chunk p r l m n = ground arith

push-middle :
    (h : ℕ) (bytes chunk : List ℕ) (p : Packet) (r : Reassembler)
    → h < 256
    → 1 ≤ length chunk
    → length (bytes ++ chunk) < max_nal_payload
    → Holds h bytes p r
    → let q = record p { sequence_number = u16 (p.sequence_number + 1) } in
      let (s, d) = push (cut h 0 chunk q) r in Holds h (bytes ++ chunk) q s × (d ≡ waits)
unfolding push push_fragment settle cut goes_on reset
push-middle h bytes chunk p r l m n k =
    let e : low5 (h / 32 * 32 + 28) ≡ 28 = omega arith in ground arith

push-end :
    (h : ℕ) (bytes chunk : List ℕ) (p : Packet) (r : Reassembler)
    → h < 256
    → 1 ≤ length chunk
    → length (bytes ++ chunk) < max_nal_payload
    → Holds h bytes p r
    → let q = record p { sequence_number = u16 (p.sequence_number + 1) } in
      (push (cut h 64 chunk q) r).1 ≡ gives (record q { payload = h ∷ bytes ++ chunk }) reassembled
unfolding push push_fragment settle cut goes_on reset
push-end h bytes chunk p r l m n k = ground arith

-- No fragment is empty.
unfoldable pub NonEmpty : List (List ℕ) → Type 0
NonEmpty cs = All (λ (c : List ℕ). 1 ≤ length c) cs

feed-Holds :
    (h : ℕ) (cs : List (List ℕ)) (bytes : List ℕ) (p : Packet) (r : Reassembler)
    → h < 256
    → NonEmpty cs
    → length bytes + length (joined cs) < max_nal_payload
    → Holds h bytes p r
    → let (k, ok) = feed (middles h cs p) r in
      Holds h (bytes ++ joined cs) (after cs p) k × (ok ≡ true)
unfolding feed middles joined after NonEmpty
feed-Holds h [] bytes p r l ne n k = (subst (λ x. Holds h x p r) (sym (append-nil bytes)) k, refl)
feed-Holds h (c ∷ cs) bytes p r l (e, es) n k =
    let s = push (cut h 0 c (next p)) r in
    let a = length-append bytes c in
    let b = length-append c (joined cs) in
    let (m, w) = push-middle h bytes c p r l e (omega arith) k in
    let (x, ok) = feed-Holds h cs (bytes ++ c) (next p) s.0 l es (omega arith) m in
    (
      subst (λ y. Holds h y (after cs (next p)) (feed (middles h cs (next p)) s.0).0)
          (append_assoc bytes c (joined cs)) x,
      ap₂ (λ d b. is_waiting d && b) w ok,
    )

-- A NAL unit whose bytes after the header are fewer than max_nal_payload, sent as two or more FU-A packets of one
-- timestamp and consecutive numbers of which none is empty, comes out as one packet with its bytes when the last
-- fragment comes, and the packets before that are held back, whatever came before.
pub push-reassembles :
    (h : ℕ) (first : List ℕ) (mids : List (List ℕ)) (last : List ℕ) (p : Packet) (r : Reassembler)
    → h < 256
    → NonEmpty (first ∷ last ∷ mids)
    → length first + (length (joined mids) + length last) < max_nal_payload
    → let (s, d) = push (cut h 128 first p) r in
      let (k, ok) = feed (middles h mids p) s in
      let q = next (after mids p) in
      (d ≡ waits)
      × (ok ≡ true)
      × ((push (cut h 64 last q) k).1
          ≡ gives (record q { payload = h ∷ (first ++ joined mids) ++ last }) reassembled)
unfolding NonEmpty
push-reassembles h first mids last p r l (e, (f, es)) n =
    let s = push (cut h 128 first p) r in
    let (k, w) = push-start h first p r l e (omega arith) in
    let (m, ok) = feed-Holds h mids first p s.0 l es (omega arith) k in
    let a = length-append first (joined mids) in
    let b = length-append (first ++ joined mids) last in
    (
      w,
      ok,
      push-end h (first ++ joined mids) last (after mids p) (feed (middles h mids p) s.0).0 l f
          (omega arith) m,
    )
