-- ===== src/Text.antt =====
-- Text as internal/sip and internal/session read it, and what they use of Go's strings, strconv and net. A text is the list of
-- its bytes, and all of it is ASCII: no other space or letter case is known.
use webrtc_gateway.Base.{
  [], ◌∷◌, Option, ◌≡◌, ℕ, Bool, some, none, leb, false, if◌then◌else◌, true, arith, ◌&&◌, ltb,
  ◌!=◌, ◌==◌, ◌+◌, ◌||◌, ◌*◌, ◌-◌, ◌^◌, refl, is_empty, ◌++◌,
}
use Prim.Native.Char.{code}
use Prim.Native.String.{String, ◌∷◌, []}
use mathlib.Core.List.{reverse, map, List}
use mathlib.Core.Option

abbrev pub Text : Type 0
Text = List ℕ

abbrev pub codes : String → Text
codes String.[] = []
codes (String.◌∷◌ c s) = code c ∷ codes s

unfoldable pub text_eq : Text → Text → Bool
text_eq [] [] = true
text_eq (a ∷ s) (b ∷ t) = (a == b) && text_eq s t
text_eq _ _ = false

pub text_eq→eq : (s t : Text) → text_eq s t ≡ true → s ≡ t
unfolding text_eq
text_eq→eq [] [] h = refl
text_eq→eq [] (b ∷ t) h = ground arith
text_eq→eq (a ∷ s) [] h = ground arith
text_eq→eq (a ∷ s) (b ∷ t) h = ground (arith, text_eq→eq s t)

pub text_eq_refl : (s : Text) → text_eq s s ≡ true
unfolding text_eq
text_eq_refl [] = refl
text_eq_refl (c ∷ s) = ground (arith, text_eq_refl s)

abbrev pub is_space : ℕ → Bool
is_space c = (leb 9 c && leb c 13) || (c == 32)

unfoldable pub trim_left : Text → Text
trim_left [] = []
trim_left (c ∷ s) = if is_space c then trim_left s else c ∷ s

-- strings.TrimSpace
unfoldable pub trim_space : Text → Text
unfolding trim_left
trim_space s = reverse (trim_left (reverse (trim_left s)))

abbrev pub lower_byte : ℕ → ℕ
lower_byte c = if leb b'A' c && leb c b'Z' then c + 32 else c

-- strings.ToLower
unfoldable pub to_lower : Text → Text
to_lower s = map lower_byte s

-- strings.TrimPrefix, with `none` where HasPrefix is false.
unfoldable pub strip_prefix : Text → Text → Option Text
strip_prefix [] s = some s
strip_prefix (p ∷ ps) [] = none
strip_prefix (p ∷ ps) (c ∷ s) = if p == c then strip_prefix ps s else none

unfoldable pub has_prefix : Text → Text → Bool
unfolding strip_prefix
has_prefix p s = elim (strip_prefix p s) [ none ↦ false | some r ↦ true ]

-- strings.TrimSuffix of a suffix of one byte, with `none` where HasSuffix is false.
unfoldable pub strip_last : ℕ → Text → Option Text
strip_last b [] = none
strip_last b (c ∷ []) = if c == b then some [] else none
strip_last b (c ∷ d ∷ s) = Option.map (λ r. c ∷ r) (strip_last b (d ∷ s))

-- The text before and after the last occurrence of a byte.
unfoldable pub split_last : ℕ → Text → Option (Text × Text)
split_last b [] = none
split_last b (c ∷ s) = elim (split_last b s) [
  | some (front, back) ↦ some (c ∷ front, back)
  | none ↦ if c == b then some ([], s) else none
]

-- The text before and after the first occurrence of a byte.
unfoldable pub split_first : ℕ → Text → Option (Text × Text)
split_first b [] = none
split_first b (c ∷ s) =
    let more = Option.map (λ (r : Text × Text). (c ∷ r.0, r.1)) (split_first b s) in
    if c == b then some ([], s) else more

unfoldable pub contains_byte : ℕ → Text → Bool
contains_byte b [] = false
contains_byte b (c ∷ s) = (c == b) || contains_byte b s

unfoldable pub digits_from : ℕ → Text → Option ℕ
digits_from n [] = some n
digits_from n (c ∷ s) =
    if leb b'0' c && leb c b'9' then digits_from (n * 10 + (c - b'0')) s else none

unfoldable pub digits : Text → Option ℕ
unfolding digits_from
digits [] = none
digits (c ∷ s) = digits_from 0 (c ∷ s)

-- A number above its bound is an error.
abbrev pub at_most : ℕ → Option ℕ → Option ℕ
at_most b none = none
at_most b (some n) = if ltb b n then none else some n

-- strconv.Atoi, where a negative number is 0: every caller takes numbers that are not positive alike.
unfoldable pub atoi : Text → Option ℕ
unfolding digits
atoi [] = none
atoi (c ∷ s) =
    if c == b'-'
    then Option.map (λ (n : ℕ). 0) (at_most (2 ^ 63) (digits s))
    else if c == b'+'
    then at_most (2 ^ 63 - 1) (digits s)
    else at_most (2 ^ 63 - 1) (digits (c ∷ s))

-- net.SplitHostPort of a text in brackets, from the text after its first bracket.
unfoldable pub split_bracketed : Text → Option (Text × Text)
unfolding split_first contains_byte
split_bracketed s = elim (split_first b']' s) [
  | none ↦ none
  | some (host, []) ↦ none
  | some (host, c ∷ port) ↦
      if c != b':'
      then none
      else if contains_byte b':' port || contains_byte b'[' host
      then none
      else if contains_byte b'[' port || contains_byte b']' port
      then none
      else some (host, port)
]

-- net.SplitHostPort, with `none` for each of its errors.
unfoldable pub split_host_port : Text → Option (Text × Text)
unfolding split_bracketed split_last contains_byte
split_host_port [] = none
split_host_port (c ∷ s) = if c == b'[' then split_bracketed s else elim (split_last b':' (c ∷ s)) [
  | none ↦ none
  | some (host, port) ↦
      if contains_byte b':' host
      then none
      else if contains_byte b'[' (c ∷ s) || contains_byte b']' (c ∷ s)
      then none
      else some (host, port)
]

-- strings.Split by a separator of one byte.
abbrev pub onto_first : ℕ → List Text → List Text
onto_first c [] = (c ∷ []) ∷ []
onto_first c (t ∷ ts) = (c ∷ t) ∷ ts

unfoldable pub split_on : ℕ → Text → List Text
split_on b [] = [] ∷ []
split_on b (c ∷ s) = let rest = split_on b s in if c == b then [] ∷ rest else onto_first c rest

-- A field that ends, from its bytes in reverse.
abbrev pub ended_field : Text → List Text
ended_field field = if is_empty field then [] else reverse field ∷ []

-- strings.Fields, with the bytes of the field that is read in reverse.
unfoldable pub fields_from : Text → Text → List Text
fields_from field [] = ended_field field
fields_from field (c ∷ s) =
    (if is_space c then ended_field field else [])
    ++ fields_from (if is_space c then [] else c ∷ field) s

-- strconv.Atoi: whether the number is negative, and its size.
unfoldable pub integer : Text → Option (Bool × ℕ)
unfolding digits
integer [] = none
integer (c ∷ s) =
    if c == b'-'
    then Option.map (λ (n : ℕ). (n != 0, n)) (at_most (2 ^ 63) (digits s))
    else Option.map (λ (n : ℕ). (false, n))
        (at_most (2 ^ 63 - 1) (digits (if c == b'+' then s else c ∷ s)))
