-- ===== src/Leases.antt =====
-- kvm-daemon/src/service.rs: the leases of outbound links, one for a peer and the epoch of the child
-- that opened the link. The hash map is a list with at most one lease for a key, in no order that
-- matters; the instants are arguments.
pub mod Ids
pub mod Once
use thekvm.Prelude.{
  ℕ, ◌+◌, ◌%◌, ◌^◌, Bool, true, false, ◌&&◌, ◌||◌, Option, none, some, List, [], ◌∷◌, ◌==◌,
  if◌then◌else◌, find, is_some,
}
use thekvm.Prelude.Text.{Text, text_eq, to_ascii_lowercase}

pub record OutboundLease : Type 0 where
  pub id : ℕ
  pub fingerprint_hex : Text
  pub address : Text
  pub link_id : Option ℕ
  pub last_ping : ℕ

pub record LeaseInfo : Type 0 where
  pub fingerprint_hex : Text
  pub address : Text
  pub link_id : Option ℕ

-- The map and the counter of ids.
pub record Leases : Type 0 where
  pub leases : List OutboundLease
  pub next_id : ℕ

unfoldable pub same_epoch : Option ℕ → Option ℕ → Bool
same_epoch none none = true
same_epoch (some a) (some b) = a == b
same_epoch _ _ = false

abbrev pub has_key : Text → Option ℕ → OutboundLease → Bool
has_key fingerprint link_id r =
    text_eq r.fingerprint_hex fingerprint && same_epoch r.link_id link_id

abbrev pub info_of : OutboundLease → LeaseInfo
info_of r = record { fingerprint_hex = r.fingerprint_hex; address = r.address; link_id = r.link_id }

-- `HashMap::remove`
unfoldable pub without_key : Text → Option ℕ → List OutboundLease → List OutboundLease
unfolding same_epoch
without_key fingerprint link_id [] = []
without_key fingerprint link_id (r ∷ rs) =
    let rest = without_key fingerprint link_id rs in
    if has_key fingerprint link_id r then rest else r ∷ rest

-- The new state and the id of the lease; the atomic counter wraps.
unfoldable pub lease_begin : ℕ → Text → Text → Option ℕ → Leases → Leases × ℕ
lease_begin now fingerprint address link_id s =
    let fresh : OutboundLease = record {
      id = s.next_id;
      fingerprint_hex = fingerprint;
      address = address;
      link_id = link_id;
      last_ping = now;
    } in
    (
      record {
        leases = fresh ∷ without_key fingerprint link_id s.leases;
        next_id = (s.next_id + 1) % 2 ^ 64;
      },
      s.next_id,
    )

-- The live lease of the link, if it has the id.
abbrev pub is_live : Text → Option ℕ → ℕ → OutboundLease → Bool
is_live fingerprint link_id id r = has_key fingerprint link_id r && r.id == id

unfoldable pub refresh : (OutboundLease → Bool) → ℕ → List OutboundLease → List OutboundLease
refresh p now [] = []
refresh p now (r ∷ rs) =
    let rest = refresh p now rs in if p r then record r { last_ping = now } ∷ rest else r ∷ rest

unfoldable pub lease_touch : ℕ → Text → Option ℕ → ℕ → Leases → Leases × Bool
unfolding find refresh
lease_touch now fingerprint link_id id s = (
  record s { leases = refresh (is_live fingerprint link_id id) now s.leases },
  is_some (find (is_live fingerprint link_id id) s.leases),
)

-- What an end or a hang-up found, taken out.
unfoldable pub taken : Option OutboundLease → Leases → Leases × Option LeaseInfo
unfolding without_key
taken none s = (s, none)
taken (some r) s =
    (record s { leases = without_key r.fingerprint_hex r.link_id s.leases }, some (info_of r))

unfoldable pub lease_end : Text → Option ℕ → ℕ → Leases → Leases × Option LeaseInfo
unfolding taken find
lease_end fingerprint link_id id s = taken (find (is_live fingerprint link_id id) s.leases) s

abbrev pub has_epoch : Option ℕ → OutboundLease → Bool
has_epoch none r = false
has_epoch (some epoch) r = same_epoch r.link_id (some epoch)

abbrev pub has_address : Option Text → OutboundLease → Bool
has_address none r = false
has_address (some address) r = text_eq r.address address

unfoldable pub take_lease : Option ℕ → Option Text → Leases → Leases × Option LeaseInfo
unfolding taken find
take_lease link_id address s =
    taken (find (λ r. has_epoch link_id r || has_address address r) s.leases) s

abbrev pub owner_of : Option OutboundLease → Option Text
owner_of none = none
owner_of (some r) = some r.fingerprint_hex

unfoldable pub outbound_epoch_owner : ℕ → Leases → Option Text
unfolding find
outbound_epoch_owner link_id s = owner_of (find (has_epoch (some link_id)) s.leases)

-- `str::eq_ignore_ascii_case`
unfoldable pub outbound_epoch_live : Text → ℕ → Leases → Bool
unfolding outbound_epoch_owner
outbound_epoch_live fingerprint link_id s = elim (outbound_epoch_owner link_id s) [
  | none ↦ false
  | some owner ↦ text_eq (to_ascii_lowercase owner) (to_ascii_lowercase fingerprint)
]

pub data LeaseOp : Type 0 where
  begins : ℕ → Text → Text → Option ℕ → LeaseOp
  touches : ℕ → Text → Option ℕ → ℕ → LeaseOp
  ends : Text → Option ℕ → ℕ → LeaseOp
  takes : Option ℕ → Option Text → LeaseOp

unfoldable pub step : Leases → LeaseOp → Leases
step s (begins now fingerprint address link_id) = (lease_begin now fingerprint address link_id s).0
step s (touches now fingerprint link_id id) = (lease_touch now fingerprint link_id id s).0
step s (ends fingerprint link_id id) = (lease_end fingerprint link_id id s).0
step s (takes link_id address) = (take_lease link_id address s).0

unfoldable pub steps : Leases → List LeaseOp → Leases
steps s [] = s
steps s (op ∷ ops) = steps (step s op) ops
