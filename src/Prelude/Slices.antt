-- ===== src/Prelude/Slices.antt =====
-- Lists by position: slices, indexing, chunks and their concatenation.
use Prim.Native.Nat.{ℕ, zero, suc, ◌+◌, ◌-◌, ◌*◌, ◌<◌, ◌≤◌, min}
use mathlib.Core.Path.{◌≡◌, refl, ap, ◌∙◌}
use mathlib.Core.Logic.{◌⊎◌, inl, inr}
use mathlib.Core.Option.{Option, none, some}
use mathlib.Core.List.{List, [], ◌∷◌, ◌++◌}
use native.Mathlib.Omega.{arith}
use thekvm.Prelude.Lists.{length, All}

multiple : (n size : ℕ) → (n * size ≡ 0) ⊎ (size ≤ n * size)
multiple zero size = inl (omega arith)
multiple (suc n) size = inr (grind arith)

-- The counts of pieces with one more in front.
chunk_step :
    (size l r n : ℕ)
    → r ≡ l - size
    → r ≤ n * size
    → n * size < r + size
    → 0 < l
    → (l ≤ suc n * size) × (suc n * size < l + size)
chunk_step size l r n e low high q =
    let more : suc n * size ≡ size + n * size = grind arith in
    elim (multiple n size) [
      | inl none_more ↦ (omega arith, omega arith)
      | inr some_more ↦ (omega arith, omega arith)
    ]

module _ {ℓ} {A : Type ℓ} where
  unfoldable pub take : ℕ → List A → List A
  take zero xs = []
  take (suc n) [] = []
  take (suc n) (x ∷ xs) = x ∷ take n xs

  unfoldable pub drop : ℕ → List A → List A
  drop zero xs = xs
  drop (suc n) [] = []
  drop (suc n) (x ∷ xs) = drop n xs

  -- `&xs[from..to]`, on a list that is long enough.
  unfoldable pub slice : ℕ → ℕ → List A → List A
  unfolding take drop
  slice from to xs = take (to - from) (drop from xs)

  abbrev pub get_elem? : List A → ℕ → Option A
  get_elem? [] i = none
  get_elem? (x ∷ xs) zero = some x
  get_elem? (x ∷ xs) (suc i) = get_elem? xs i

  -- A write out of bounds changes nothing.
  abbrev pub set : List A → ℕ → A → List A
  set [] i v = []
  set (x ∷ xs) zero v = v ∷ xs
  set (x ∷ xs) (suc i) v = x ∷ set xs i v

  abbrev pub replicate : ℕ → A → List A
  replicate zero v = []
  replicate (suc n) v = v ∷ replicate n v

  -- `extend` over the pieces.
  unfoldable pub concat : List (List A) → List A
  concat [] = []
  concat (xs ∷ xss) = xs ++ concat xss

  pub take-append-drop : (n : ℕ) (xs : List A) → take n xs ++ drop n xs ≡ xs
  unfolding take drop
  take-append-drop zero xs = refl
  take-append-drop (suc n) [] = refl
  take-append-drop (suc n) (x ∷ xs) = ap (x ∷◌) (take-append-drop n xs)

  pub length-take : (n : ℕ) (xs : List A) → length (take n xs) ≡ min n (length xs)
  unfolding take
  length-take zero xs = omega arith
  length-take (suc n) [] = omega arith
  length-take (suc n) (x ∷ xs) = omega (arith, length-take n xs)

  pub length-drop : (n : ℕ) (xs : List A) → length (drop n xs) ≡ length xs - n
  unfolding drop
  length-drop zero xs = omega arith
  length-drop (suc n) [] = omega arith
  length-drop (suc n) (x ∷ xs) = omega (arith, length-drop n xs)

  pub take-append : (xs ys : List A) → take (length xs) (xs ++ ys) ≡ xs
  unfolding take
  take-append [] ys = refl
  take-append (x ∷ xs) ys = ap (x ∷◌) (take-append xs ys)

  pub drop-append : (xs ys : List A) → drop (length xs) (xs ++ ys) ≡ ys
  unfolding drop
  drop-append [] ys = refl
  drop-append (x ∷ xs) ys = drop-append xs ys

  -- Pieces of `size` from the front on, the last one shorter; enough rounds are given.
  chunk_rounds : ℕ → ℕ → List A → List (List A)
  chunk_rounds zero size xs = []
  chunk_rounds (suc n) size [] = []
  chunk_rounds (suc n) size (x ∷ xs) = take size (x ∷ xs) ∷ chunk_rounds n size (drop size (x ∷ xs))

  -- `xs.chunks(size)`
  unfoldable pub chunks : ℕ → List A → List (List A)
  unfolding chunk_rounds
  chunks size xs = chunk_rounds (length xs) size xs

  drop_shorter :
      (size n : ℕ) (x : A) (xs : List A)
      → 0 < size
      → length (x ∷ xs) ≤ suc n
      → length (drop size (x ∷ xs)) ≤ n
  drop_shorter size n x xs p h = omega (arith, length-drop size (x ∷ xs))

  concat-chunk_rounds :
      (n size : ℕ) (xs : List A) → 0 < size → length xs ≤ n → concat (chunk_rounds n size xs) ≡ xs
  unfolding concat chunk_rounds
  concat-chunk_rounds zero size [] p h = refl
  concat-chunk_rounds zero size (x ∷ xs) p h = absurd (omega arith)
  concat-chunk_rounds (suc n) size [] p h = refl
  concat-chunk_rounds (suc n) size (x ∷ xs) p h =
      ap (take size (x ∷ xs) ++◌)
        (concat-chunk_rounds n size (drop size (x ∷ xs)) p (drop_shorter size n x xs p h))
      ∙ take-append-drop size (x ∷ xs)

  -- The pieces make up the list.
  pub concat-chunks : (size : ℕ) (xs : List A) → 0 < size → concat (chunks size xs) ≡ xs
  unfolding chunks
  concat-chunks size xs p = concat-chunk_rounds (length xs) size xs p (omega arith)

  -- A piece is at most `size` long, and not empty.
  abbrev pub IsPiece : ℕ → List A → Type 0
  IsPiece size xs = (0 < length xs) × (length xs ≤ size)

  chunk_rounds-IsPiece :
      (n size : ℕ) (xs : List A) → 0 < size → All (IsPiece size) (chunk_rounds n size xs)
  unfolding chunk_rounds
  chunk_rounds-IsPiece zero size xs p = tt
  chunk_rounds-IsPiece (suc n) size [] p = tt
  chunk_rounds-IsPiece (suc n) size (x ∷ xs) p =
      (omega (arith, length-take size (x ∷ xs)), chunk_rounds-IsPiece n size (drop size (x ∷ xs)) p)

  pub chunks-IsPiece : (size : ℕ) (xs : List A) → 0 < size → All (IsPiece size) (chunks size xs)
  unfolding chunks
  chunks-IsPiece size xs p = chunk_rounds-IsPiece (length xs) size xs p

  chunk_rounds-length :
      (n size : ℕ) (xs : List A)
      → 0 < size
      → length xs ≤ n
      → (length xs ≤ length (chunk_rounds n size xs) * size)
        × (length (chunk_rounds n size xs) * size < length xs + size)
  unfolding chunk_rounds
  chunk_rounds-length zero size [] p h = (omega arith, omega arith)
  chunk_rounds-length zero size (x ∷ xs) p h = absurd (omega arith)
  chunk_rounds-length (suc n) size [] p h = (omega arith, omega arith)
  chunk_rounds-length (suc n) size (x ∷ xs) p h =
      let (low, high) =
        chunk_rounds-length n size (drop size (x ∷ xs)) p (drop_shorter size n x xs p h) in
      chunk_step size (length (x ∷ xs)) _ (length (chunk_rounds n size (drop size (x ∷ xs))))
        (length-drop size (x ∷ xs)) low high (omega arith)

  -- There are as many pieces as it takes: the length over the size, rounded up.
  pub chunks-length :
      (size : ℕ) (xs : List A)
      → 0 < size
      → (length xs ≤ length (chunks size xs) * size)
        × (length (chunks size xs) * size < length xs + size)
  unfolding chunks
  chunks-length size xs p = chunk_rounds-length (length xs) size xs p (omega arith)

  pub length-set : (xs : List A) (i : ℕ) (v : A) → length (set xs i v) ≡ length xs
  length-set [] i v = refl
  length-set (x ∷ xs) zero v = refl
  length-set (x ∷ xs) (suc i) v = ap suc (length-set xs i v)

  pub length-replicate : (n : ℕ) (v : A) → length (replicate n v) ≡ n
  length-replicate zero v = refl
  length-replicate (suc n) v = ap suc (length-replicate n v)
