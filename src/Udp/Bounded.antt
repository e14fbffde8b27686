-- ===== src/Udp/Bounded.antt =====
-- kvm-protocol/src/udp.rs: the size of the reassembly buffer, whatever is fed to it.
use thekvm.Prelude.{
  ℕ, zero, suc, ◌+◌, ◌<◌, ◌≤◌, ◌≡◌, refl, ap, ◌∙◌, Option, none, some, List, [], ◌∷◌, ◌++◌, length,
  arith, All, Option-cases, inl, inr,
}
use thekvm.Prelude.Result.{ok}
use thekvm.Prelude.Slices.{get_elem?, set, replicate, length-set}
use thekvm.Udp.Reassembler.{Pending, Reassembly, store, collect}

unfoldable pub filled : List (Option (List ℕ)) → ℕ
filled [] = 0
filled (none ∷ slots) = filled slots
filled (some bytes ∷ slots) = suc (filled slots)

abbrev pub IsSlot : Option (List ℕ) → Type 0
IsSlot none = Unit
IsSlot (some bytes) = length bytes ≤ 896

-- A slot for each fragment, and the count of those that are filled.
abbrev pub IsSound : Reassembly → Type 0
IsSound entry =
    (0 < entry.total)
    × (entry.total ≤ 128)
    × (length entry.chunks ≡ entry.total)
    × (entry.received ≡ filled entry.chunks)
    × All IsSlot entry.chunks

-- A message that waits is sound and not complete.
abbrev pub IsWaiting : ℕ × Reassembly → Type 0
IsWaiting (msg_id, entry) = IsSound entry × (entry.received < entry.total)

-- At most 16 messages wait, each of at most 128 fragments of at most 896 bytes.
abbrev pub IsBounded : Pending → Type 0
IsBounded pending = (length pending ≤ 16) × All IsWaiting pending

pub filled-replicate : (n : ℕ) → filled (replicate n none) ≡ 0
unfolding filled
filled-replicate zero = refl
filled-replicate (suc n) = filled-replicate n

pub replicate-IsSlot : (n : ℕ) → All IsSlot (replicate n none)
replicate-IsSlot zero = tt
replicate-IsSlot (suc n) = (tt, replicate-IsSlot n)

filled-set :
    (slots : List (Option (List ℕ))) (i : ℕ) (bytes : List ℕ)
    → get_elem? slots i ≡ some none
    → filled (set slots i (some bytes)) ≡ filled slots + 1
unfolding filled
filled-set [] i bytes e = cc
filled-set (none ∷ slots) zero bytes e = omega arith
filled-set (some b ∷ slots) zero bytes e = ground arith
filled-set (none ∷ slots) (suc i) bytes e = filled-set slots i bytes e
filled-set (some b ∷ slots) (suc i) bytes e = omega (arith, filled-set slots i bytes e)

set-IsSlot :
    (slots : List (Option (List ℕ))) (i : ℕ) (bytes : List ℕ)
    → All IsSlot slots
    → length bytes ≤ 896
    → All IsSlot (set slots i (some bytes))
set-IsSlot [] i bytes h l = tt
set-IsSlot (s ∷ slots) zero bytes (h, hs) l = (l, hs)
set-IsSlot (s ∷ slots) (suc i) bytes (h, hs) l = (h, set-IsSlot slots i bytes hs l)

pub filled_most : (slots : List (Option (List ℕ))) → filled slots ≤ length slots
unfolding filled
filled_most [] = omega arith
filled_most (none ∷ slots) = omega (arith, filled_most slots)
filled_most (some b ∷ slots) = omega (arith, filled_most slots)

-- When every slot is filled, none is missing.
pub collect_full :
    (slots : List (Option (List ℕ)))
    → filled slots ≡ length slots
    → (out : List ℕ) × (collect slots ≡ ok out)
unfolding collect filled
collect_full [] h = ([], refl)
collect_full (none ∷ slots) h = absurd (omega (arith, filled_most slots))
collect_full (some b ∷ slots) h =
    let (out, e) = collect_full slots (omega arith) in (b ++ out, rw e refl)

pub store-IsSound :
    (entry : Reassembly) (i : ℕ) (bytes : List ℕ)
    → IsSound entry
    → length bytes ≤ 896
    → IsSound (store entry i bytes)
unfolding store
store-IsSound entry i bytes (p, most, l, count, slots) small =
    elim (Option-cases (get_elem? entry.chunks i)) [
      | inl e ↦ rw (store, e) (p, most, l, count, slots)
      | inr (slot, e) ↦ elim (Option-cases slot) [
        | inl f ↦
            rw (store, e, f)
              (
                p,
                most,
                length-set entry.chunks i (some bytes) ∙ l,
                omega (arith, filled-set entry.chunks i bytes (e ∙ ap some f)),
                set-IsSlot entry.chunks i bytes slots small,
              )
        | inr (b, f) ↦ rw (store, e, f) (p, most, l, count, slots)
      ]
    ]
