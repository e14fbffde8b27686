-- ===== src/Presence.antt =====
-- kvm-daemon/src/service.rs: whether the desktop app is present, from its lease and its polls. The
-- statics are the fields of the state; instants are nanoseconds.
pub mod Fresh
use thekvm.Prelude.{
  ℕ, ◌+◌, ◌-◌, ◌*◌, ◌%◌, ◌^◌, Bool, true, false, not, ◌&&◌, ◌||◌, Option, none, some, List, [], ◌∷◌,
  ltb, ◌==◌, if◌then◌else◌,
}

-- 12 seconds.
abbrev pub presence_ttl : ℕ
presence_ttl = 12000000000

pub record PresenceRecord : Type 0 where
  pub id : ℕ
  pub last_seen : ℕ

pub record Presence : Type 0 where
  pub slot : Option PresenceRecord
  pub next_id : ℕ
  pub lease_seen : Bool
  pub contact : Option ℕ

unfoldable pub presence_fresh : Option PresenceRecord → ℕ → Bool
presence_fresh none now = false
presence_fresh (some r) now = ltb (now - r.last_seen) presence_ttl

unfoldable pub legacy_presence_fresh : Option ℕ → Bool → ℕ → Bool
legacy_presence_fresh none lease_seen now = false
legacy_presence_fresh (some at) lease_seen now = not lease_seen && ltb (now - at) presence_ttl

unfoldable pub note_ui_contact : ℕ → Presence → Presence
note_ui_contact now s = record s { contact = some now }

-- The new state and the id of the lease; the atomic counter wraps.
unfoldable pub presence_begin : ℕ → Presence → Presence × ℕ
presence_begin now s = (
  record s {
    slot = some (record { id = s.next_id; last_seen = now });
    next_id = (s.next_id + 1) % 2 ^ 64;
    lease_seen = true;
  },
  s.next_id,
)

abbrev pub owns : ℕ → Option PresenceRecord → Bool
owns id none = false
owns id (some r) = r.id == id

unfoldable pub presence_touch : ℕ → ℕ → Presence → Presence × Bool
presence_touch now id s =
    if owns id s.slot
    then (record s { slot = some (record { id = id; last_seen = now }) }, true)
    else (s, false)

unfoldable pub presence_end : ℕ → Presence → Presence × Bool
presence_end id s = if owns id s.slot then (record s { slot = none }, true) else (s, false)

unfoldable pub ui_present : ℕ → Presence → Bool
unfolding presence_fresh legacy_presence_fresh
ui_present now s = presence_fresh s.slot now || legacy_presence_fresh s.contact s.lease_seen now

pub data PresenceOp : Type 0 where
  begins : ℕ → PresenceOp
  touches : ℕ → ℕ → PresenceOp
  ends : ℕ → PresenceOp
  polls : ℕ → PresenceOp

unfoldable pub step : Presence → PresenceOp → Presence
unfolding note_ui_contact presence_begin presence_touch presence_end
step s (begins now) = (presence_begin now s).0
step s (touches now id) = (presence_touch now id s).0
step s (ends id) = (presence_end id s).0
step s (polls now) = note_ui_contact now s

unfoldable pub steps : Presence → List PresenceOp → Presence
steps s [] = s
steps s (op ∷ ops) = steps (step s op) ops
