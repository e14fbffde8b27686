-- ===== src/Tests/LeaseRuns.antt =====
-- Runs of the leases of links and of the desktop app.
use thekvm.Prelude.{ℕ, zero, suc, ◌≡◌, refl, true, false, none, some, List, [], ◌∷◌, find, arith}
use thekvm.Prelude.Text.{Text, codes, text_eq}
use thekvm.Leases.{
  OutboundLease, Leases, lease_begin, lease_end, same_epoch, taken, info_of, steps, touches, begins,
}
use thekvm.Leases.Once.{IsIssued, lease_end-once, lease_begin-supersedes}
use thekvm.Prelude.{All, any, ◌≢◌}
use thekvm.Recent.{
  RecentInboundRecord, RecentInbound, recent_inbound_links, retain_fresh, note_inbound_seen,
}
use thekvm.Recent.View.{
  IsSortedByAge, is_entry, recent_inbound_links-note_inbound_seen, recent_inbound_links-end_link,
}
use thekvm.Registry
use thekvm.Registry.{Registry, is_link_of, register_inbound_link, removes, drives, drops}
use thekvm.Registry.Successor.{IsEntry, register_inbound_link-IsEntry}
use thekvm.Ended.{EndedLinks, end_link, end_links, link_ended, peer_link_ended}
use thekvm.Ended.Bans.{link_ended-end_links, end_link_forgets}
use thekvm.Presence
use thekvm.Presence.{Presence, presence_begin, ui_present, polls}
use thekvm.Presence.Fresh.{ui_present-presence_begin}

abbrev peer : Text
peer = codes "ab"

abbrev office_lease : OutboundLease
office_lease = record {
  id = 3;
  fingerprint_hex = peer;
  address = codes "10.0.0.2";
  link_id = some 7;
  last_ping = 100;
}

abbrev one_lease : Leases
one_lease = record { leases = office_lease ∷ []; next_id = 4 }

one_lease-IsIssued : IsIssued one_lease
one_lease-IsIssued = ((omega arith, tt), (tt, tt))

lease_end-once_example :
    (lease_end peer (some 7) 3 (
      steps
        (lease_end peer (some 7) 3 one_lease).0
        (begins 200 peer (codes "10.0.0.2") (some 7) ∷ []))).1
    ≡ none
unfolding lease_end taken find same_epoch text_eq
lease_end-once_example =
    lease_end-once peer peer (some 7) (some 7) 3 one_lease (info_of office_lease)
      (begins 200 peer (codes "10.0.0.2") (some 7) ∷ []) one_lease-IsIssued (omega arith) refl

lease_begin-supersedes_example :
    (lease_end peer (some 7) 3 (
      steps
        (lease_begin 200 peer (codes "10.0.0.3") (some 7) one_lease).0
        (touches 300 peer (some 7) 4 ∷ []))).1
    ≡ none
unfolding find same_epoch text_eq
lease_begin-supersedes_example =
    lease_begin-supersedes 200 peer (codes "10.0.0.3") (some 7) one_lease office_lease
      (touches 300 peer (some 7) 4 ∷ []) one_lease-IsIssued (omega arith) refl

abbrev started : Presence
started = record { slot = none; next_id = 1; lease_seen = false; contact = none }

ui_present-presence_begin_example :
    ui_present 11000000000
      (Presence.steps (presence_begin 0 started).0 (polls 5 ∷ (Presence.ends 9 ∷ [])))
    ≡ true
ui_present-presence_begin_example =
    ui_present-presence_begin 0 11000000000 started (polls 5 ∷ (Presence.ends 9 ∷ []))
      ((tt, ((λ e. omega arith), tt))) (omega arith)

abbrev no_bans : EndedLinks
no_bans = record { ended = []; peer_ended = [] }

link_ended-end_links_example : link_ended 7 (end_links (end_link 7 no_bans) (8 ∷ (9 ∷ []))) ≡ true
link_ended-end_links_example = link_ended-end_links 7 (8 ∷ (9 ∷ [])) no_bans (omega arith)

abbrev count_down : ℕ → List ℕ
count_down zero = []
count_down (suc n) = n ∷ count_down n

abbrev full_bans : EndedLinks
full_bans = record { ended = count_down 32; peer_ended = [] }

end_link_forgets_example : link_ended 7 (end_link 8 full_bans) ≡ false
unfolding peer_link_ended
end_link_forgets_example = end_link_forgets 7 8 full_bans (λ e. omega arith) refl refl

abbrev seen_peer : RecentInboundRecord
seen_peer = record {
  fingerprint_hex = peer;
  node_name = codes "office";
  address = codes "10.0.0.2";
  link_id = some 7;
  last_seen = 0;
}

seen_is_listed :
    let status = recent_inbound_links 9000000000 (end_link 8 no_bans) (
      note_inbound_seen 5000000000
        (codes "cd")
        (codes "desk")
        (codes "10.0.0.4")
        (some 7)
        (seen_peer ∷ [])) in
    (any (is_entry (codes "cd") (some 7) 4) status ≡ true) × IsSortedByAge status
unfolding retain_fresh end_link link_ended find
seen_is_listed =
    recent_inbound_links-note_inbound_seen 5000000000 9000000000 (codes "cd") (codes "desk")
      (codes "10.0.0.4") (some 7) (seen_peer ∷ []) (end_link 8 no_bans) (omega arith) (omega arith)
      refl

recent_inbound_links-end_link_example :
    All
      (λ (e : RecentInbound). e.link_id ≢ some 7)
      (recent_inbound_links 5000000000 (end_link 7 no_bans) (seen_peer ∷ []))
recent_inbound_links-end_link_example =
    recent_inbound_links-end_link 5000000000 7 no_bans (seen_peer ∷ [])

abbrev no_links : Registry
no_links = record { links = []; next_id = 5; seen = [] }

-- The predecessor, with the id 4, cleans up after the peer has dialed again.
register_inbound_link-IsEntry_example : IsEntry 5 (codes "desk") (codes "10.0.0.2") (some 7) (
    find
      (is_link_of peer)
      (Registry.steps
        (register_inbound_link 100 peer (codes "desk") (codes "10.0.0.2") (some 7) no_links).0
        (removes peer 4 ∷ drives 120 5 ∷ drops true peer ∷ [])).links)
unfolding text_eq
register_inbound_link-IsEntry_example =
    register_inbound_link-IsEntry 100 peer (codes "desk") (codes "10.0.0.2") (some 7) no_links
      (removes peer 4 ∷ drives 120 5 ∷ drops true peer ∷ []) (refl, (tt, (tt, tt)))
