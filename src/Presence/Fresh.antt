-- ===== src/Presence/Fresh.antt =====
-- kvm-daemon/src/service.rs: how long the app counts as present.
use thekvm.Prelude.{
  ℕ, ◌+◌, ◌<◌, ◌≤◌, ◌≡◌, ◌≢◌, refl, true, false, Option, none, some, List, [], ◌∷◌, All, arith,
}
use thekvm.Presence.{
  presence_ttl, PresenceRecord, Presence, presence_begin, ui_present, PresenceOp, begins, touches,
  ends, polls, step, steps,
}

-- The lease has the slot, and was seen at the instant or later.
abbrev SeenIn : ℕ → ℕ → Option PresenceRecord → Type 0
SeenIn id t none = ⊥
SeenIn id t (some r) = (r.id ≡ id) × (t ≤ r.last_seen)

-- No new lease, no end of this one, and no refresh at an earlier instant.
abbrev pub Spares : ℕ → ℕ → PresenceOp → Type 0
Spares id t (begins now) = ⊥
Spares id t (touches now other) = t ≤ now
Spares id t (ends other) = other ≢ id
Spares id t (polls now) = Unit

step-SeenIn :
    (id t : ℕ) (s : Presence) (op : PresenceOp)
    → SeenIn id t s.slot
    → Spares id t op
    → SeenIn id t (step s op).slot
unfolding step
step-SeenIn id t s (begins now) h p = absurd p
step-SeenIn id t s (touches now other) h p = ground arith
step-SeenIn id t s (ends other) h p = ground arith
step-SeenIn id t s (polls now) h p = h

steps-SeenIn :
    (id t : ℕ) (ops : List PresenceOp) (s : Presence)
    → SeenIn id t s.slot
    → All (Spares id t) ops
    → SeenIn id t (steps s ops).slot
unfolding steps
steps-SeenIn id t [] s h p = h
steps-SeenIn id t (op ∷ ops) s h (p, ps) =
    steps-SeenIn id t ops (step s op) (step-SeenIn id t s op h p) ps

seen_present :
    (id t now : ℕ) (s : Presence)
    → SeenIn id t s.slot
    → now < t + presence_ttl
    → ui_present now s ≡ true
unfolding ui_present
seen_present id t now s h b = ground arith

begun : (t : ℕ) (s : Presence) → SeenIn s.next_id t (presence_begin t s).0.slot
unfolding presence_begin
begun t s = (refl, omega arith)

-- From the begin of a lease the app is present for 12 seconds, whatever polls and whatever touches
-- and ends of other leases follow, when no lease begins, this one is not ended, and the clock does
-- not run back.
pub ui_present-presence_begin :
    (t now : ℕ) (s : Presence) (ops : List PresenceOp)
    → All (Spares s.next_id t) ops
    → now < t + presence_ttl
    → ui_present now (steps (presence_begin t s).0 ops) ≡ true
ui_present-presence_begin t now s ops p b =
    seen_present s.next_id t now (steps (presence_begin t s).0 ops)
      (steps-SeenIn s.next_id t ops (presence_begin t s).0 (begun t s) p) b

-- The slot is empty or was last seen by the instant.
abbrev LastIn : ℕ → Option PresenceRecord → Type 0
LastIn t none = Unit
LastIn t (some r) = r.last_seen ≤ t

-- No new lease, and no refresh after the instant.
abbrev pub IsSilent : ℕ → PresenceOp → Type 0
IsSilent t (begins now) = ⊥
IsSilent t (touches now id) = now ≤ t
IsSilent t (ends id) = Unit
IsSilent t (polls now) = Unit

step-LastIn :
    (t : ℕ) (s : Presence) (op : PresenceOp)
    → (s.lease_seen ≡ true) × LastIn t s.slot
    → IsSilent t op
    → ((step s op).lease_seen ≡ true) × LastIn t (step s op).slot
unfolding step
step-LastIn t s (begins now) h p = absurd p
step-LastIn t s (touches now id) h p = ground arith
step-LastIn t s (ends id) h p = ground arith
step-LastIn t s (polls now) h p = h

steps-LastIn :
    (t : ℕ) (ops : List PresenceOp) (s : Presence)
    → (s.lease_seen ≡ true) × LastIn t s.slot
    → All (IsSilent t) ops
    → ((steps s ops).lease_seen ≡ true) × LastIn t (steps s ops).slot
unfolding steps
steps-LastIn t [] s h p = h
steps-LastIn t (op ∷ ops) s h (p, ps) = steps-LastIn t ops (step s op) (step-LastIn t s op h p) ps

silent_absent :
    (t now : ℕ) (s : Presence)
    → s.lease_seen ≡ true
    → LastIn t s.slot
    → t + presence_ttl ≤ now
    → ui_present now s ≡ false
unfolding ui_present
silent_absent t now s seen h b = ground arith

begun_last :
    (t : ℕ) (s : Presence)
    → ((presence_begin t s).0.lease_seen ≡ true) × LastIn t (presence_begin t s).0.slot
unfolding presence_begin
begun_last t s = (refl, omega arith)

-- Once a lease has begun, an app whose leases were not refreshed after that instant is absent 12
-- seconds later, however often it polls.
pub ui_present-silent :
    (t now : ℕ) (s : Presence) (ops : List PresenceOp)
    → All (IsSilent t) ops
    → t + presence_ttl ≤ now
    → ui_present now (steps (presence_begin t s).0 ops) ≡ false
ui_present-silent t now s ops p b =
    let (seen, last) = steps-LastIn t ops (presence_begin t s).0 (begun_last t s) p in
    silent_absent t now (steps (presence_begin t s).0 ops) seen last b
