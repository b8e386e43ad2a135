-- ===== src/Store.antt =====
-- Shared objects as a list that their index addresses, and association lists keyed by texts.

use webrtc_gateway.Base.{
  ℕ, List, Bool, ◌++◌, ◌≡◌, Option, ◌≢◌, ◌∷◌, length, suc, some, [], zero, none, refl, true, ap,
  if◌then◌else◌, arith, keep_if, if_cases, Bool-cases, inl, inr, subst, sym, ◌<◌, All, subst₂,
}
use webrtc_gateway.Text.{Text, text_eq, text_eq→eq}

module _ {ℓ} {A : Type ℓ} where
  -- A write through an address that is not there changes nothing.
  abbrev pub update_at : List A → ℕ → (A → A) → List A
  update_at [] i f = []
  update_at (x ∷ xs) zero f = f x ∷ xs
  update_at (x ∷ xs) (suc i) f = x ∷ update_at xs i f

  pub length-update_at : (xs : List A) (i : ℕ) (f : A → A) → length (update_at xs i f) ≡ length xs
  length-update_at [] i f = refl
  length-update_at (x ∷ xs) zero f = refl
  length-update_at (x ∷ xs) (suc i) f = ap suc (length-update_at xs i f)

module _ {ℓ κ} {A : Type ℓ} {B : Type κ} (g : A → B) where
  -- What an object shows through an address.
  abbrev pub view : List A → ℕ → Option B
  view [] i = none
  view (x ∷ xs) zero = some (g x)
  view (x ∷ xs) (suc i) = view xs i

  pub view-update_at_kept :
      (xs : List A) (i j : ℕ) (f : A → A)
      → ((x : A) → g (f x) ≡ g x)
      → view (update_at xs i f) j ≡ view xs j
  view-update_at_kept [] i j f k = refl
  view-update_at_kept (x ∷ xs) zero zero f k = ap some (k x)
  view-update_at_kept (x ∷ xs) zero (suc j) f k = refl
  view-update_at_kept (x ∷ xs) (suc i) zero f k = refl
  view-update_at_kept (x ∷ xs) (suc i) (suc j) f k = view-update_at_kept xs i j f k

  pub view-update_at_other :
      (xs : List A) (i j : ℕ) (f : A → A) → i ≢ j → view (update_at xs i f) j ≡ view xs j
  view-update_at_other [] i j f n = refl
  view-update_at_other (x ∷ xs) zero zero f n = absurd (n refl)
  view-update_at_other (x ∷ xs) zero (suc j) f n = refl
  view-update_at_other (x ∷ xs) (suc i) zero f n = refl
  view-update_at_other (x ∷ xs) (suc i) (suc j) f n =
      view-update_at_other xs i j f (λ e. n (ap suc e))

  pub view-update_at :
      (xs : List A) (i : ℕ) (f : A → A) (h : B → B) (b : B)
      → ((x : A) → g (f x) ≡ h (g x))
      → view xs i ≡ some b
      → view (update_at xs i f) i ≡ some (h b)
  view-update_at [] i f h b k v = ground arith
  view-update_at (x ∷ xs) zero f h b k v = let t = k x in ground arith
  view-update_at (x ∷ xs) (suc i) f h b k v = view-update_at xs i f h b k v

  pub view_defined : (xs : List A) (i : ℕ) → i < length xs → (b : B) × (view xs i ≡ some b)
  view_defined [] i l = absurd (omega arith)
  view_defined (x ∷ xs) zero l = (g x, refl)
  view_defined (x ∷ xs) (suc i) l = view_defined xs i (omega arith)

  pub view-within : (xs : List A) (i : ℕ) (b : B) → view xs i ≡ some b → i < length xs
  view-within [] i b v = absurd (ground arith)
  view-within (x ∷ xs) zero b v = omega arith
  view-within (x ∷ xs) (suc i) b v = omega (arith, view-within xs i b v)

  pub view-append :
      (xs : List A) (y : A) (i : ℕ) (b : B) → view xs i ≡ some b → view (xs ++ y ∷ []) i ≡ some b
  view-append [] y i b v = ground arith
  view-append (x ∷ xs) y zero b v = v
  view-append (x ∷ xs) y (suc i) b v = view-append xs y i b v

  pub view_last : (xs : List A) (y : A) → view (xs ++ y ∷ []) (length xs) ≡ some (g y)
  view_last [] y = refl
  view_last (x ∷ xs) y = view_last xs y

module _ {ℓ κ μ} {A : Type ℓ} {B : Type κ} {C : Type μ} (g : A → B) (h : A → C) where
  -- Two views of one object.
  pub view_both :
      (xs : List A) (i : ℕ) (b : B)
      → view g xs i ≡ some b
      → (x : A) × (g x ≡ b) × (view h xs i ≡ some (h x))
  view_both [] i b v = absurd (ground arith)
  view_both (x ∷ xs) zero b v = (x, ground arith, refl)
  view_both (x ∷ xs) (suc i) b v = view_both xs i b v

module _ {ℓ} {A : Type ℓ} where
  abbrev pub find : Text → List (Text × A) → Option A
  find k [] = none
  find k ((j, a) ∷ rest) = if text_eq j k then some a else find k rest

  -- What a filter keeps is found as before.
  pub find-keep_if :
      (p : Text × A → Bool) (k : Text) (a : A) (m : List (Text × A))
      → find k m ≡ some a
      → p (k, a) ≡ true
      → find k (keep_if p m) ≡ some a
  find-keep_if p k a [] f h = ground arith
  find-keep_if p k a ((j, b) ∷ rest) f h =
      if_cases (λ l. find k l ≡ some a) (p (j, b))
        (λ kept. elim (Bool-cases (text_eq j k)) [
          | inl e ↦ ground arith
          | inr n ↦ (let t = find-keep_if p k a rest in ground arith)
        ])
        (λ dropped. elim (Bool-cases (text_eq j k)) [
          | inl e ↦
              (let q = text_eq→eq j k e in
                let r : b ≡ a = ground arith in
                let c : p (j, b) ≡ true =
                  subst (λ x. p (x, b) ≡ true) (sym q) (subst (λ y. p (k, y) ≡ true) (sym r) h) in
                ground arith)
          | inr n ↦ find-keep_if p k a rest (ground arith) h
        ])

  pub find-All {κ} :
      (P : Text × A → Type κ) (k : Text) (a : A) (m : List (Text × A))
      → All P m
      → find k m ≡ some a
      → P (k, a)
  find-All P k a [] h f = absurd (ground arith)
  find-All P k a ((j, b) ∷ rest) h f = elim (Bool-cases (text_eq j k)) [
    | inl e ↦ (let r : b ≡ a = ground arith in subst₂ (λ x y. P (x, y)) (text_eq→eq j k e) r h.0)
    | inr n ↦ find-All P k a rest h.1 (ground arith)
  ]
