-- ===== src/Registry.antt =====
-- kvm-daemon/src/service.rs: the registry of inbound links. The hash map is a list with one link for
-- a fingerprint, the shared counters of a session are fields of its link, and the channel that asks
-- a session to end is a flag. Stamps are milliseconds since the start of the process.
pub mod Successor
use thekvm.Prelude.{
  ℕ, ◌+◌, ◌-◌, ◌%◌, ◌^◌, Bool, true, false, not, ◌&&◌, ◌||◌, Option, none, some, List, [], ◌∷◌, leb,
  ltb, ◌==◌, if◌then◌else◌, find, update_first,
}
use thekvm.Prelude.Text.{Text, text_eq}
use thekvm.Recent.{RecentInboundRecord, note_inbound_seen}

-- No stamp: `u64::MAX`.
abbrev pub no_input_yet : ℕ
no_input_yet = 2 ^ 64 - 1

abbrev pub lease_ms : ℕ
lease_ms = 45000

pub record InboundLink : Type 0 where
  pub id : ℕ
  pub fingerprint_hex : Text
  pub node_name : Text
  pub address : Text
  pub link_id : Option ℕ
  pub input_events : ℕ
  pub driving : Bool
  pub last_input : ℕ
  pub dropped : Bool

-- The registry, the counter of ids, and the recently seen peers.
pub record Registry : Type 0 where
  pub links : List InboundLink
  pub next_id : ℕ
  pub seen : List RecentInboundRecord

abbrev pub is_link_of : Text → InboundLink → Bool
is_link_of fingerprint l = text_eq l.fingerprint_hex fingerprint

-- `HashMap::remove`
unfoldable pub without_link : Text → List InboundLink → List InboundLink
without_link fingerprint [] = []
without_link fingerprint (l ∷ ls) =
    let rest = without_link fingerprint ls in if is_link_of fingerprint l then rest else l ∷ rest

unfoldable pub register_inbound_link : ℕ → Text → Text → Text → Option ℕ → Registry → Registry × ℕ
unfolding without_link
register_inbound_link now fingerprint node_name address link_id s =
    let link : InboundLink = record {
      id = s.next_id;
      fingerprint_hex = fingerprint;
      node_name = node_name;
      address = address;
      link_id = link_id;
      input_events = 0;
      driving = false;
      last_input = no_input_yet;
      dropped = false;
    } in
    (
      record {
        links = link ∷ without_link fingerprint s.links;
        next_id = (s.next_id + 1) % 2 ^ 64;
        seen = note_inbound_seen now fingerprint node_name address link_id s.seen;
      },
      s.next_id,
    )

abbrev pub owns_entry : ℕ → Option InboundLink → Bool
owns_entry id none = false
owns_entry id (some l) = l.id == id

abbrev pub any_link : Option InboundLink → Bool
any_link none = false
any_link (some l) = true

unfoldable pub remove_inbound_link : Text → ℕ → Registry → Registry
unfolding find without_link
remove_inbound_link fingerprint id s =
    if owns_entry id (find (is_link_of fingerprint) s.links)
    then record s { links = without_link fingerprint s.links }
    else s

-- One received input event, or a takeover of the cursor, of the session with the id.
unfoldable pub note_inbound_activity : ℕ → ℕ → Registry → Registry
unfolding update_first
note_inbound_activity now id s = record s {
  links =
      update_first (λ l. l.id == id)
        (λ l. record l { input_events = (l.input_events + 1) % 2 ^ 64; last_input = now }) s.links;
}

-- Whether the session was asked to end; `listening` is whether it still waits on the channel.
unfoldable pub drop_inbound_link : Bool → Text → Registry → Registry × Bool
unfolding find update_first
drop_inbound_link listening fingerprint s =
    if any_link (find (is_link_of fingerprint) s.links) && listening
    then (
      record s {
        links = update_first (is_link_of fingerprint) (λ l. record l { dropped = true }) s.links;
      },
      true,
    )
    else (s, false)

abbrev pub is_recent : ℕ → Option InboundLink → Bool
is_recent now none = false
is_recent now (some l) =
    not (l.last_input == no_input_yet) && leb l.last_input now && ltb (now - l.last_input) lease_ms

unfoldable pub registry_input_recent_at : Text → ℕ → Registry → Bool
unfolding find
registry_input_recent_at fingerprint now s = is_recent now (find (is_link_of fingerprint) s.links)

pub data RegistryOp : Type 0 where
  registers : ℕ → Text → Text → Text → Option ℕ → RegistryOp
  removes : Text → ℕ → RegistryOp
  drives : ℕ → ℕ → RegistryOp
  drops : Bool → Text → RegistryOp

unfoldable pub step : Registry → RegistryOp → Registry
step s (registers now f n a l) = (register_inbound_link now f n a l s).0
step s (removes f id) = remove_inbound_link f id s
step s (drives now id) = note_inbound_activity now id s
step s (drops listening f) = (drop_inbound_link listening f s).0

unfoldable pub steps : Registry → List RegistryOp → Registry
steps s [] = s
steps s (op ∷ ops) = steps (step s op) ops
