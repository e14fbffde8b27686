-- ===== src/Udp/Tally.antt =====
-- kvm-protocol/src/udp.rs: what the reassembly of one message promises, without slots and entries:
-- which pieces have been seen since the message was last complete.
use thekvm.Prelude.{
  ℕ, zero, suc, ◌<◌, ◌≡◌, ◌⊎◌, inl, inr, refl, sym, Bool, true, false, some, List, [], ◌∷◌, length,
  arith, all, any, if◌then◌else◌, Bool-cases, ◌==◌, ==_iff, ◌||◌,
}
use thekvm.Prelude.Slices.{get_elem?, set, replicate, length-set}
use thekvm.Udp.Slots.{all_seen}

-- One piece arrives: the pieces seen after it, and whether the message is complete.
unfoldable pub tally : List Bool → ℕ → List Bool × Bool
unfolding all_seen
tally seen i =
    let next = set seen i true in
    if all_seen next then (replicate (length seen) false, true) else (next, false)

unfoldable pub tallies : List Bool → List ℕ → List Bool × List Bool
unfolding tally
tallies seen [] = (seen, [])
tallies seen (i ∷ order) =
    let (next, complete) = tally seen i in
    let (last, flags) = tallies next order in (last, complete ∷ flags)

abbrev pub contains : List ℕ → ℕ → Bool
contains [] i = false
contains (j ∷ order) i = j == i || contains order i

-- Every piece has been seen or is still to come.
abbrev Awaits : List Bool → List ℕ → Type 0
Awaits seen order =
    (i : ℕ) → i < length seen → (get_elem? seen i ≡ some true) ⊎ (contains order i ≡ true)

unseen :
    (seen : List Bool)
    → all_seen seen ≡ false
    → (i : ℕ) × (i < length seen) × (get_elem? seen i ≡ some false)
unfolding all_seen all
unseen [] h = cc
unseen (true ∷ seen) h = let (i, l, e) = unseen seen h in (suc i, omega arith, e)
unseen (false ∷ seen) h = (0, omega arith, refl)

get_elem?-set :
    (seen : List Bool) (i j : ℕ)
    → i < length seen
    → (get_elem? seen i ≡ some true) ⊎ (i ≡ j)
    → get_elem? (set seen j true) i ≡ some true
get_elem?-set [] i j l h = absurd (omega arith)
get_elem?-set (b ∷ seen) zero zero l h = refl
get_elem?-set (b ∷ seen) zero (suc j) l h = ground arith
get_elem?-set (b ∷ seen) (suc i) zero l h = ground arith
get_elem?-set (b ∷ seen) (suc i) (suc j) l (inl e) = get_elem?-set seen i j (omega arith) (inl e)
get_elem?-set (b ∷ seen) (suc i) (suc j) l (inr e) =
    get_elem?-set seen i j (omega arith) (inr (omega arith))

Awaits-next :
    (seen : List Bool) (j : ℕ) (order : List ℕ)
    → Awaits seen (j ∷ order)
    → Awaits (set seen j true) order
Awaits-next seen j order h i l =
    let l' : i < length seen = omega (arith, length-set seen j true) in
    elim (h i l') [
      | inl e ↦ inl (get_elem?-set seen i j l' (inl e))
      | inr m ↦ elim (Bool-cases (j == i)) [
        | inl e ↦ inl (get_elem?-set seen i j l' (inr (sym ((==_iff j i).0 e))))
        | inr e ↦ inr (ground arith)
      ]
    ]

-- A message of which every piece still comes is complete at some time.
pub tallies_complete :
    (seen : List Bool) (order : List ℕ)
    → all_seen seen ≡ false
    → Awaits seen order
    → any (λ f. f) (tallies seen order).1 ≡ true
unfolding tallies tally any
tallies_complete seen [] p h =
    let (i, l, e) = unseen seen p in elim (h i l) [ inl f ↦ cc | inr m ↦ cc ]
tallies_complete seen (j ∷ order) p h = elim (Bool-cases (all_seen (set seen j true))) [
  | inl e ↦ rw e refl
  | inr e ↦ rw (e, tallies_complete (set seen j true) order e (Awaits-next seen j order h)) refl
]

pub all_seen-replicate : (n : ℕ) → 0 < n → all_seen (replicate n false) ≡ false
unfolding all_seen all
all_seen-replicate zero h = absurd (omega arith)
all_seen-replicate (suc n) h = refl
