-- ===== src/Leases/Ids.antt =====
-- kvm-daemon/src/service.rs: the ids of leases are never used again.
use thekvm.Prelude.{
  ℕ, ◌+◌, ◌^◌, ◌<◌, ◌≤◌, ◌≡◌, ◌≢◌, refl, Bool, ◌||◌, Option, none, some, List, [], ◌∷◌, length,
  find, All, find-All, find-passes, arith, Bool-cases, Option-cases, inl, inr,
}
use thekvm.Prelude.Text.{Text}
use thekvm.Leases.{
  OutboundLease, Leases, has_key, without_key, lease_begin, is_live, refresh, lease_touch, taken,
  lease_end, has_epoch, has_address, take_lease, LeaseOp, begins, touches, ends, takes, step, steps,
}

-- A property of the leases that does not read the last ping.
abbrev Steady : (OutboundLease → Type 0) → Type 0
Steady P = (r : OutboundLease) (now : ℕ) → P r → P (record r { last_ping = now })

pub All-without_key :
    (P : OutboundLease → Type 0) (k : Text) (l : Option ℕ) (rs : List OutboundLease)
    → All P rs
    → All P (without_key k l rs)
unfolding without_key
All-without_key P k l [] h = tt
All-without_key P k l (r ∷ rs) (h, hs) = elim (Bool-cases (has_key k l r)) [
  | inl e ↦ rw e (All-without_key P k l rs hs)
  | inr e ↦ rw e (h, All-without_key P k l rs hs)
]

pub All-refresh :
    (P : OutboundLease → Type 0) (p : OutboundLease → Bool) (now : ℕ) (rs : List OutboundLease)
    → Steady P
    → All P rs
    → All P (refresh p now rs)
unfolding refresh
All-refresh P p now [] k h = tt
All-refresh P p now (r ∷ rs) k (h, hs) = elim (Bool-cases (p r)) [
  | inl e ↦ rw e (k r now h, All-refresh P p now rs k hs)
  | inr e ↦ rw e (h, All-refresh P p now rs k hs)
]

All-taken :
    (P : OutboundLease → Type 0) (o : Option OutboundLease) (s : Leases)
    → All P s.leases
    → All P (taken o s).0.leases
unfolding taken
All-taken P none s h = h
All-taken P (some r) s h = All-without_key P r.fingerprint_hex r.link_id s.leases h

-- The id was given out and no lease has it.
abbrev pub IsRetired : ℕ → Leases → Type 0
IsRetired id s = (id < s.next_id) × All (λ (r : OutboundLease). r.id ≢ id) s.leases

pub taken-next_id : (o : Option OutboundLease) (s : Leases) → (taken o s).0.next_id ≡ s.next_id
unfolding taken
taken-next_id none s = refl
taken-next_id (some r) s = refl

step-IsRetired :
    (id : ℕ) (s : Leases) (op : LeaseOp)
    → s.next_id + 1 < 2 ^ 64
    → IsRetired id s
    → IsRetired id (step s op) × ((step s op).next_id ≤ s.next_id + 1)
unfolding step lease_begin lease_touch lease_end take_lease
step-IsRetired id s (begins now k a l) b (old, h) = (
  (omega arith, ((λ e. omega arith), All-without_key (λ r. r.id ≢ id) k l s.leases h)),
  omega arith,
)
step-IsRetired id s (touches now k l i) b (old, h) =
    ((old, All-refresh (λ r. r.id ≢ id) _ now s.leases (λ r t e. e) h), omega arith)
step-IsRetired id s (ends k l i) b (old, h) =
    let o = find (is_live k l i) s.leases in
    let same = taken-next_id o s in ((omega arith, All-taken (λ r. r.id ≢ id) o s h), omega arith)
step-IsRetired id s (takes l a) b (old, h) =
    let o = find (λ (r : OutboundLease). has_epoch l r || has_address a r) s.leases in
    let same = taken-next_id o s in ((omega arith, All-taken (λ r. r.id ≢ id) o s h), omega arith)

pub steps-IsRetired :
    (id : ℕ) (ops : List LeaseOp) (s : Leases)
    → s.next_id + length ops < 2 ^ 64
    → IsRetired id s
    → IsRetired id (steps s ops)
unfolding steps
steps-IsRetired id [] s b h = h
steps-IsRetired id (op ∷ ops) s b h =
    let (kept, near) = step-IsRetired id s op (omega arith) h in
    steps-IsRetired id ops (step s op) (omega arith) kept

-- A retired id ends nothing.
pub retired_ends_nothing :
    (id : ℕ) (k : Text) (l : Option ℕ) (s : Leases) → IsRetired id s → (lease_end k l id s).1 ≡ none
unfolding lease_end
retired_ends_nothing id k l s (old, h) = elim (Option-cases (find (is_live k l id) s.leases)) [
  | inl e ↦ rw e refl
  | inr (r, e) ↦
      let other = find-All (λ (r : OutboundLease). r.id ≢ id) (is_live k l id) s.leases h e in
      let live = find-passes (is_live k l id) s.leases e in absurd (other (ground arith))
]
