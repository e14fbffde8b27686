-- ===== src/Recent.antt =====
-- kvm-daemon/src/service.rs: the recently seen inbound peers. The hash map is a list with one record
-- for a fingerprint; instants are nanoseconds.
pub mod View
use thekvm.Prelude.{
  ℕ, ◌+◌, ◌-◌, ◌/◌, ◌*◌, Bool, true, false, not, ◌&&◌, ◌||◌, Option, none, some, List, [], ◌∷◌, leb,
  ltb, if◌then◌else◌, length,
}
use thekvm.Prelude.Text.{Text, text_eq}
use thekvm.Ended.{EndedLinks, link_ended}

abbrev pub recent_inbound_max_secs : ℕ
recent_inbound_max_secs = 900

-- A record of the map with its key.
pub record RecentInboundRecord : Type 0 where
  pub fingerprint_hex : Text
  pub node_name : Text
  pub address : Text
  pub link_id : Option ℕ
  pub last_seen : ℕ

-- What Status shows of one.
pub record RecentInbound : Type 0 where
  pub fingerprint_hex : Text
  pub node_name : Text
  pub address : Text
  pub link_id : Option ℕ
  pub last_seen_secs_ago : ℕ

-- `elapsed().as_secs()`
abbrev pub elapsed_secs : ℕ → ℕ → ℕ
elapsed_secs now at = (now - at) / 1000000000

unfoldable pub retain_fresh : ℕ → List RecentInboundRecord → List RecentInboundRecord
retain_fresh now [] = []
retain_fresh now (r ∷ rs) =
    let rest = retain_fresh now rs in
    if leb (elapsed_secs now r.last_seen) recent_inbound_max_secs then r ∷ rest else rest

-- `HashMap::remove`
unfoldable pub forget_recent_inbound : Text → List RecentInboundRecord → List RecentInboundRecord
forget_recent_inbound fingerprint [] = []
forget_recent_inbound fingerprint (r ∷ rs) =
    let rest = forget_recent_inbound fingerprint rs in
    if text_eq r.fingerprint_hex fingerprint then rest else r ∷ rest

unfoldable pub note_inbound_seen :
    ℕ → Text → Text → Text → Option ℕ → List RecentInboundRecord → List RecentInboundRecord
unfolding retain_fresh forget_recent_inbound
note_inbound_seen now fingerprint node_name address link_id seen =
    let fresh = retain_fresh now seen in
    let entry : RecentInboundRecord = record {
      fingerprint_hex = fingerprint;
      node_name = node_name;
      address = address;
      link_id = link_id;
      last_seen = now;
    } in
    if leb 64 (length fresh) then fresh else entry ∷ forget_recent_inbound fingerprint fresh

abbrev pub view_of : ℕ → RecentInboundRecord → RecentInbound
view_of now r = record {
  fingerprint_hex = r.fingerprint_hex;
  node_name = r.node_name;
  address = r.address;
  link_id = r.link_id;
  last_seen_secs_ago = elapsed_secs now r.last_seen;
}

-- `sort_by_key` on the age, which is stable.
unfoldable pub insert_by_age : RecentInbound → List RecentInbound → List RecentInbound
insert_by_age e [] = e ∷ []
insert_by_age e (f ∷ fs) =
    if leb e.last_seen_secs_ago f.last_seen_secs_ago then e ∷ (f ∷ fs) else f ∷ insert_by_age e fs

unfoldable pub sort_by_age : List RecentInbound → List RecentInbound
unfolding insert_by_age
sort_by_age [] = []
sort_by_age (e ∷ es) = insert_by_age e (sort_by_age es)

abbrev pub is_shown : (Option ℕ → Bool) → RecentInbound → Bool
is_shown banned e = not (banned e.link_id) && leb e.last_seen_secs_ago recent_inbound_max_secs

unfoldable pub shown : (Option ℕ → Bool) → List RecentInbound → List RecentInbound
shown banned [] = []
shown banned (e ∷ es) = let rest = shown banned es in if is_shown banned e then e ∷ rest else rest

unfoldable pub recent_inbound_view : (Option ℕ → Bool) → List RecentInbound → List RecentInbound
unfolding sort_by_age shown
recent_inbound_view banned records = sort_by_age (shown banned records)

abbrev pub views : ℕ → List RecentInboundRecord → List RecentInbound
views now [] = []
views now (r ∷ rs) = view_of now r ∷ views now rs

abbrev pub epoch_banned : EndedLinks → Option ℕ → Bool
epoch_banned ended none = false
epoch_banned ended (some link_id) = link_ended link_id ended

unfoldable pub recent_inbound_links : ℕ → EndedLinks → List RecentInboundRecord → List RecentInbound
unfolding recent_inbound_view
recent_inbound_links now ended seen = recent_inbound_view (epoch_banned ended) (views now seen)
