-- ===== src/Prelude/Assoc.antt =====
-- Maps as lists of pairs, over keys with a Boolean equality.
use oxidia.Prelude.{
  ℕ, ◌≤◌, ◌<◌, ◌≡◌, refl, sym, ◌↔◌, ◌∙◌, inl, inr, Bool, true, List, [], ◌∷◌, Option, none, some,
  arith, if◌then◌else◌, Bool-cases, length, nat_test, ==_iff,
}
use mathlib.Core.Option

pub record Eq {ℓ} (K : Type ℓ) : Type ℓ where
  pub beq : K → K → Bool
  pub beq_iff : (a b : K) → (beq a b ≡ true) ↔ (a ≡ b)

instance abbrev pub nat_eq : Eq ℕ
nat_eq = record { beq = nat_test; beq_iff = ==_iff }

module _ {ℓ} {K : Type ℓ} ⦃e : Eq K⦄ where
  pub beq_self : (k : K) → e.beq k k ≡ true
  beq_self k = (e.beq_iff k k).1 refl

  -- Two keys that equal a third one equal each other.
  beq_through : (i k j : K) → e.beq i k ≡ true → e.beq i j ≡ e.beq k j
  beq_through i k j h = rw ((e.beq_iff i k).0 h) refl

  beq_join : (i k j : K) → e.beq i j ≡ true → e.beq k j ≡ true → e.beq i k ≡ true
  beq_join i k j h g = (e.beq_iff i k).1 ((e.beq_iff i j).0 h ∙ sym ((e.beq_iff k j).0 g))

module _ {ℓ κ} {K : Type ℓ} {V : Type κ} ⦃e : Eq K⦄ where
  unfoldable pub lookup : K → List (K × V) → Option V
  lookup k [] = none
  lookup k ((j, v) ∷ m) = if e.beq j k then some v else lookup k m

  -- A key that is there keeps its place.
  unfoldable pub insert : K → V → List (K × V) → List (K × V)
  insert k v [] = (k, v) ∷ []
  insert k v ((j, w) ∷ m) = if e.beq j k then (j, v) ∷ m else (j, w) ∷ insert k v m

  -- What `get_mut` reaches is changed in place.
  unfoldable pub adjust : K → (V → V) → List (K × V) → List (K × V)
  adjust k f [] = []
  adjust k f ((j, v) ∷ m) = if e.beq j k then (j, f v) ∷ m else (j, v) ∷ adjust k f m

  unfoldable pub erase : K → List (K × V) → List (K × V)
  erase k [] = []
  erase k ((j, v) ∷ m) = if e.beq j k then erase k m else (j, v) ∷ erase k m

  pub lookup-insert :
      (k j : K) (v : V) (m : List (K × V))
      → lookup j (insert k v m) ≡ (if e.beq k j then some v else lookup j m)
  unfolding lookup insert
  lookup-insert k j v [] = refl
  lookup-insert k j v ((i, w) ∷ m) = elim (Bool-cases (e.beq i k)) [
    | inl same ↦ rw same (elim (Bool-cases (e.beq k j)) [
      | inl h ↦ rw (h, beq_through i k j same ∙ h) refl
      | inr h ↦ rw (h, beq_through i k j same ∙ h) refl
    ])
    | inr other ↦ rw other (elim (Bool-cases (e.beq i j)) [
      | inl h ↦ elim (Bool-cases (e.beq k j)) [
        | inl kj ↦ cc (beq_join i k j h kj)
        | inr kj ↦ rw (h, kj) refl
      ]
      | inr h ↦ rw h (lookup-insert k j v m)
    ])
  ]

  pub lookup-adjust :
      (k j : K) (f : V → V) (m : List (K × V))
      → lookup j (adjust k f m) ≡ (if e.beq k j then Option.map f (lookup j m) else lookup j m)
  unfolding lookup adjust
  lookup-adjust k j f [] = elim (Bool-cases (e.beq k j)) [ inl h ↦ rw h refl | inr h ↦ rw h refl ]
  lookup-adjust k j f ((i, w) ∷ m) = elim (Bool-cases (e.beq i k)) [
    | inl same ↦ rw same (elim (Bool-cases (e.beq k j)) [
      | inl h ↦ rw (h, beq_through i k j same ∙ h) refl
      | inr h ↦ rw (h, beq_through i k j same ∙ h) refl
    ])
    | inr other ↦ rw other (elim (Bool-cases (e.beq i j)) [
      | inl h ↦ elim (Bool-cases (e.beq k j)) [
        | inl kj ↦ cc (beq_join i k j h kj)
        | inr kj ↦ rw (h, kj) refl
      ]
      | inr h ↦ rw h (lookup-adjust k j f m)
    ])
  ]

  pub lookup-erase :
      (k j : K) (m : List (K × V)) → lookup j (erase k m) ≡ (if e.beq k j then none else lookup j m)
  unfolding lookup erase
  lookup-erase k j [] = elim (Bool-cases (e.beq k j)) [ inl h ↦ rw h refl | inr h ↦ rw h refl ]
  lookup-erase k j ((i, w) ∷ m) = elim (Bool-cases (e.beq i k)) [
    | inl same ↦ rw same (elim (Bool-cases (e.beq k j)) [
      | inl h ↦ rw h (lookup-erase k j m ∙ rw h refl)
      | inr h ↦ rw (h, beq_through i k j same ∙ h) (lookup-erase k j m ∙ rw h refl)
    ])
    | inr other ↦ rw other (elim (Bool-cases (e.beq i j)) [
      | inl h ↦ elim (Bool-cases (e.beq k j)) [
        | inl kj ↦ cc (beq_join i k j h kj)
        | inr kj ↦ rw (h, kj) refl
      ]
      | inr h ↦ rw h (lookup-erase k j m)
    ])
  ]

  pub length-erase-le : (k : K) (m : List (K × V)) → length (erase k m) ≤ length m
  unfolding erase
  length-erase-le k [] = omega arith
  length-erase-le k ((j, v) ∷ m) = ground (arith, length-erase-le k m)

  -- A key that is there makes the map shorter when it goes.
  pub length-erase-lt :
      (k : K) (m : List (K × V)) {v : V} → lookup k m ≡ some v → length (erase k m) < length m
  unfolding lookup erase
  length-erase-lt k [] h = cc
  length-erase-lt k ((j, w) ∷ m) h = elim (Bool-cases (e.beq j k)) [
    | inl same ↦ rw same (omega (arith, length-erase-le k m))
    | inr other ↦ rw other (omega (arith, length-erase-lt k m (rw other at h)))
  ]

  pub length-adjust : (k : K) (f : V → V) (m : List (K × V)) → length (adjust k f m) ≡ length m
  unfolding adjust
  length-adjust k f [] = refl
  length-adjust k f ((j, v) ∷ m) = ground (arith, length-adjust k f m)
