-- ===== src/Ended.antt =====
-- kvm-daemon/src/service.rs: the epochs of links that either side has ended. A hash set is a list
-- without duplicates.
pub mod Bans
use thekvm.Prelude.{ℕ, Bool, ◌||◌, List, [], ◌∷◌, leb, ◌==◌, if◌then◌else◌, length, any}

-- The statics `ENDED_LINKS` and `PEER_ENDED_LINKS`.
pub record EndedLinks : Type 0 where
  pub ended : List ℕ
  pub peer_ended : List ℕ

abbrev pub has_epoch : List ℕ → ℕ → Bool
has_epoch ended link_id = any (λ e. e == link_id) ended

-- `HashSet::insert`
unfoldable pub insert_epoch : ℕ → List ℕ → List ℕ
unfolding any
insert_epoch link_id ended = if has_epoch ended link_id then ended else link_id ∷ ended

-- A full set is cleared first.
unfoldable pub banned : ℕ → List ℕ → List ℕ
unfolding insert_epoch
banned link_id ended = insert_epoch link_id (if leb 32 (length ended) then [] else ended)

unfoldable pub end_link : ℕ → EndedLinks → EndedLinks
unfolding banned
end_link link_id s = record s { ended = banned link_id s.ended }

unfoldable pub peer_end_link : ℕ → EndedLinks → EndedLinks
unfolding banned
peer_end_link link_id s = record s { peer_ended = banned link_id s.peer_ended }

unfoldable pub peer_link_ended : ℕ → EndedLinks → Bool
unfolding any
peer_link_ended link_id s = has_epoch s.peer_ended link_id

unfoldable pub link_ended : ℕ → EndedLinks → Bool
unfolding peer_link_ended
link_ended link_id s = has_epoch s.ended link_id || peer_link_ended link_id s

unfoldable pub end_links : EndedLinks → List ℕ → EndedLinks
unfolding end_link
end_links s [] = s
end_links s (link_id ∷ ids) = end_links (end_link link_id s) ids
