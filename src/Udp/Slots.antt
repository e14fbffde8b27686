-- ===== src/Udp/Slots.antt =====
-- kvm-protocol/src/udp.rs: the slots of a message of which some pieces have arrived.
use thekvm.Prelude.{
  ℕ, zero, suc, ◌+◌, ◌<◌, ◌≤◌, ◌≡◌, refl, ap, Bool, true, false, Option, none, some, List, [], ◌∷◌,
  length, arith, all,
}
use thekvm.Prelude.Result.{ok}
use thekvm.Prelude.Slices.{get_elem?, set, replicate, concat}
use thekvm.Udp.Reassembler.{collect}

pub get_elem?-some {ℓ} :
    {A : Type ℓ} (xs : List A) (i : ℕ) → i < length xs → (a : A) × (get_elem? xs i ≡ some a)
get_elem?-some [] i h = absurd (omega arith)
get_elem?-some (x ∷ xs) zero h = (x, refl)
get_elem?-some (x ∷ xs) (suc i) h = get_elem?-some xs i (omega arith)

-- The pieces that have been seen, in their slots.
unfoldable pub mask : List Bool → List (List ℕ) → List (Option (List ℕ))
mask [] ps = []
mask (b ∷ seen) [] = []
mask (true ∷ seen) (p ∷ ps) = some p ∷ mask seen ps
mask (false ∷ seen) (p ∷ ps) = none ∷ mask seen ps

unfoldable pub count_seen : List Bool → ℕ
count_seen [] = 0
count_seen (true ∷ seen) = suc (count_seen seen)
count_seen (false ∷ seen) = count_seen seen

unfoldable pub all_seen : List Bool → Bool
unfolding all
all_seen seen = all (λ b. b) seen

pub mask-replicate :
    (ps : List (List ℕ)) → mask (replicate (length ps) false) ps ≡ replicate (length ps) none
unfolding mask
mask-replicate [] = refl
mask-replicate (p ∷ ps) = ap (none ∷◌) (mask-replicate ps)

pub count_seen-replicate : (n : ℕ) → count_seen (replicate n false) ≡ 0
unfolding count_seen
count_seen-replicate zero = refl
count_seen-replicate (suc n) = count_seen-replicate n

pub get_elem?-mask :
    (seen : List Bool) (ps : List (List ℕ)) (i : ℕ) {b : Bool} {p : List ℕ}
    → get_elem? seen i ≡ some b
    → get_elem? ps i ≡ some p
    → get_elem? (mask seen ps) i ≡ some (elim b [ true ↦ some p | false ↦ none ])
unfolding mask
get_elem?-mask [] ps i e f = cc
get_elem?-mask (b ∷ seen) [] i e f = cc
get_elem?-mask (true ∷ seen) (p ∷ ps) zero e f = ground arith
get_elem?-mask (false ∷ seen) (p ∷ ps) zero e f = ground arith
get_elem?-mask (true ∷ seen) (p ∷ ps) (suc i) e f = get_elem?-mask seen ps i e f
get_elem?-mask (false ∷ seen) (p ∷ ps) (suc i) e f = get_elem?-mask seen ps i e f

-- A new piece fills its slot.
pub set-mask :
    (seen : List Bool) (ps : List (List ℕ)) (i : ℕ) {p : List ℕ}
    → get_elem? ps i ≡ some p
    → set (mask seen ps) i (some p) ≡ mask (set seen i true) ps
unfolding mask
set-mask [] ps i e = refl
set-mask (b ∷ seen) [] i e = cc
set-mask (true ∷ seen) (p ∷ ps) zero e = cc
set-mask (false ∷ seen) (p ∷ ps) zero e = cc
set-mask (true ∷ seen) (p ∷ ps) (suc i) e = ap (some p ∷◌) (set-mask seen ps i e)
set-mask (false ∷ seen) (p ∷ ps) (suc i) e = ap (none ∷◌) (set-mask seen ps i e)

pub count_seen-set :
    (seen : List Bool) (i : ℕ)
    → get_elem? seen i ≡ some false
    → count_seen (set seen i true) ≡ count_seen seen + 1
unfolding count_seen
count_seen-set [] i e = cc
count_seen-set (true ∷ seen) zero e = cc
count_seen-set (false ∷ seen) zero e = omega arith
count_seen-set (true ∷ seen) (suc i) e = omega (arith, count_seen-set seen i e)
count_seen-set (false ∷ seen) (suc i) e = count_seen-set seen i e

pub set-true : (seen : List Bool) (i : ℕ) → get_elem? seen i ≡ some true → set seen i true ≡ seen
set-true [] i e = cc
set-true (b ∷ seen) zero e = cc
set-true (b ∷ seen) (suc i) e = ap (b ∷◌) (set-true seen i e)

count_seen_most : (seen : List Bool) → count_seen seen ≤ length seen
unfolding count_seen
count_seen_most [] = omega arith
count_seen_most (true ∷ seen) = omega (arith, count_seen_most seen)
count_seen_most (false ∷ seen) = omega (arith, count_seen_most seen)

-- The count is full when all have been seen, and only then.
pub count_seen_full : (seen : List Bool) → all_seen seen ≡ true → count_seen seen ≡ length seen
unfolding count_seen all_seen all
count_seen_full [] h = refl
count_seen_full (true ∷ seen) h = ap suc (count_seen_full seen h)
count_seen_full (false ∷ seen) h = cc

pub count_seen_less : (seen : List Bool) → all_seen seen ≡ false → count_seen seen < length seen
unfolding count_seen all_seen all
count_seen_less [] h = cc
count_seen_less (true ∷ seen) h = omega (arith, count_seen_less seen h)
count_seen_less (false ∷ seen) h = omega (arith, count_seen_most seen)

-- Full slots are collected in their order.
pub collect-mask :
    (seen : List Bool) (ps : List (List ℕ))
    → length seen ≡ length ps
    → all_seen seen ≡ true
    → collect (mask seen ps) ≡ ok (concat ps)
unfolding collect mask all_seen all concat
collect-mask [] [] h e = refl
collect-mask [] (p ∷ ps) h e = absurd (omega arith)
collect-mask (b ∷ seen) [] h e = absurd (omega arith)
collect-mask (true ∷ seen) (p ∷ ps) h e = rw (collect-mask seen ps (omega arith) e) refl
collect-mask (false ∷ seen) (p ∷ ps) h e = cc
