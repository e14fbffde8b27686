-- ===== src/Capture/Sets.antt =====
-- kvm-daemon/src/service.rs: the sorted sets of held keys and buttons.
use thekvm.Prelude.{
  ℕ, ◌<◌, ◌≡◌, refl, false, not, ◌&&◌, ◌||◌, List, [], ◌∷◌, ltb, ◌==◌, All, All-map, arith,
  Bool-cases, inl, inr,
}
use thekvm.Capture.{contains, insert, delete}

module _ {ℓ} {A : Type ℓ} (code : A → ℕ) where
  -- Strictly increasing, so without duplicates.
  abbrev pub IsSorted : List A → Type 0
  IsSorted [] = Unit
  IsSorted (x ∷ ys) = All (λ y. code x < code y) ys × IsSorted ys

  pub contains-insert :
      (x y : A) (ys : List A)
      → contains code x (insert code y ys) ≡ (code x == code y || contains code x ys)
  unfolding contains insert
  contains-insert x y [] = refl
  contains-insert x y (z ∷ ys) = ground (arith, contains-insert x y ys)

  absent :
      (x y : A) (ys : List A)
      → code x ≡ code y
      → All (λ z. code y < code z) ys
      → contains code x ys ≡ false
  unfolding contains
  absent x y [] e h = refl
  absent x y (z ∷ ys) e (h, hs) = ground (arith, absent x y ys e hs)

  pub contains-delete :
      (x y : A) (ys : List A)
      → IsSorted ys
      → contains code x (delete code y ys) ≡ (not (code x == code y) && contains code x ys)
  unfolding contains delete
  contains-delete x y [] h = ground arith
  contains-delete x y (z ∷ ys) (h, hs) = elim (Bool-cases (code y == code z)) [
    | inl e ↦ elim (Bool-cases (code x == code y)) [
      | inl f ↦ rw (e, f, absent x z ys (ground arith) h) refl
      | inr f ↦ rw (e, f) (ground arith)
    ]
    | inr e ↦ rw (e, contains-delete x y ys hs) (ground arith)
  ]

  insert-All : (P : A → Type 0) (x : A) (ys : List A) → P x → All P ys → All P (insert code x ys)
  unfolding insert
  insert-All P x [] p h = (p, tt)
  insert-All P x (y ∷ ys) p (h, hs) = elim (Bool-cases (code x == code y)) [
    | inl e ↦ rw e (h, hs)
    | inr e ↦ elim (Bool-cases (ltb (code x) (code y))) [
      | inl f ↦ rw (e, f) (p, (h, hs))
      | inr f ↦ rw (e, f) (h, insert-All P x ys p hs)
    ]
  ]

  delete-All : (P : A → Type 0) (x : A) (ys : List A) → All P ys → All P (delete code x ys)
  unfolding delete
  delete-All P x [] h = tt
  delete-All P x (y ∷ ys) (h, hs) = elim (Bool-cases (code x == code y)) [
    | inl e ↦ rw e hs
    | inr e ↦ rw e (h, delete-All P x ys hs)
  ]

  pub insert-IsSorted : (x : A) (ys : List A) → IsSorted ys → IsSorted (insert code x ys)
  unfolding insert
  insert-IsSorted x [] h = (tt, tt)
  insert-IsSorted x (y ∷ ys) (h, hs) = elim (Bool-cases (code x == code y)) [
    | inl e ↦ rw e (h, hs)
    | inr e ↦ elim (Bool-cases (ltb (code x) (code y))) [
      | inl f ↦
          let less : code x < code y = ground arith in
          rw (e, f) ((less, All-map (λ z l. omega arith) ys h), (h, hs))
      | inr f ↦
          rw (e, f)
            (insert-All (λ z. code y < code z) x ys (ground arith) h, insert-IsSorted x ys hs)
    ]
  ]

  pub delete-IsSorted : (x : A) (ys : List A) → IsSorted ys → IsSorted (delete code x ys)
  unfolding delete
  delete-IsSorted x [] h = tt
  delete-IsSorted x (y ∷ ys) (h, hs) = elim (Bool-cases (code x == code y)) [
    | inl e ↦ rw e hs
    | inr e ↦ rw e (delete-All (λ z. code y < code z) x ys h, delete-IsSorted x ys hs)
  ]
