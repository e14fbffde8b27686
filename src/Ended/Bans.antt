-- ===== src/Ended/Bans.antt =====
-- kvm-daemon/src/service.rs: how long the ban of an ended link holds.
use thekvm.Prelude.{
  ℕ, ◌+◌, ◌<◌, ◌≤◌, ◌≡◌, ◌≢◌, refl, true, false, List, [], ◌∷◌, leb, ◌==◌, length, any, arith,
}
use thekvm.Ended.{EndedLinks, has_epoch, banned, end_link, peer_link_ended, link_ended, end_links}

length-banned : (id : ℕ) (xs : List ℕ) → length xs < 32 → length (banned id xs) ≤ length xs + 1
unfolding banned
length-banned id xs h = ground arith

banned_self : (id : ℕ) (xs : List ℕ) → has_epoch (banned id xs) id ≡ true
unfolding banned any
banned_self id xs = ground arith

banned_kept :
    (id x : ℕ) (xs : List ℕ)
    → length xs < 32
    → has_epoch xs x ≡ true
    → has_epoch (banned id xs) x ≡ true
unfolding banned any
banned_kept id x xs h e = ground arith

still_banned :
    (x : ℕ) (ids : List ℕ) (s : EndedLinks)
    → has_epoch s.ended x ≡ true
    → length s.ended + length ids ≤ 32
    → link_ended x (end_links s ids) ≡ true
unfolding end_links link_ended
still_banned x [] s e b = rw e refl
still_banned x (id ∷ ids) s e b =
    let room : length s.ended < 32 = omega arith in
    let long = length-banned id s.ended room in
    still_banned x ids (end_link id s) (banned_kept id x s.ended room e)
      (unfold end_link in omega arith)

-- A link that the user ends is ended.
pub link_ended-end_link : (x : ℕ) (s : EndedLinks) → link_ended x (end_link x s) ≡ true
unfolding link_ended end_link
link_ended-end_link x s = rw (banned_self x s.ended) refl

-- The ban of a link that the user ends on a set with room holds through the links ended after it, as
-- long as all of them fit the 32 of the set.
pub link_ended-end_links :
    (x : ℕ) (ids : List ℕ) (s : EndedLinks)
    → length s.ended + 1 + length ids ≤ 32
    → link_ended x (end_links (end_link x s) ids) ≡ true
unfolding end_link
link_ended-end_links x ids s b =
    let long = length-banned x s.ended (omega arith) in
    still_banned x ids (end_link x s) (banned_self x s.ended) (omega arith)

-- Ending one more link on a full set lifts every other local ban, however recent.
pub end_link_forgets :
    (x y : ℕ) (s : EndedLinks)
    → x ≢ y
    → length s.ended ≡ 32
    → peer_link_ended x s ≡ false
    → link_ended x (end_link y s) ≡ false
unfolding link_ended end_link any
end_link_forgets x y s apart full h =
    let other : (y == x) ≡ false = ground arith in
    let cleared : leb 32 (length s.ended) ≡ true = ground arith in rw (cleared, other) h
