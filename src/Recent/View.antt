-- ===== src/Recent/View.antt =====
-- kvm-daemon/src/service.rs: what Status shows of the recently seen inbound peers.
use thekvm.Prelude.{
  ℕ, ◌≤◌, ◌≡◌, ◌≢◌, ◌<◌, ◌-◌, ◌/◌, ◌==◌, ==_refl, refl, ap, ◌∙◌, Bool, true, false, ◌&&◌, ◌||◌,
  Option, none, some, List, [], ◌∷◌, leb, length, any, All, All-map, arith, Bool-cases, inl, inr,
}
use thekvm.Prelude.Text.{Text, text_eq, text_eq_refl}
use thekvm.Leases.{same_epoch}
use thekvm.Ended.{EndedLinks, link_ended, end_link}
use thekvm.Ended.Bans.{link_ended-end_link}
use thekvm.Recent.{
  RecentInboundRecord, RecentInbound, retain_fresh, forget_recent_inbound, note_inbound_seen,
  insert_by_age, sort_by_age, is_shown, shown, recent_inbound_view, views, epoch_banned,
  recent_inbound_links,
}

-- The youngest first.
abbrev pub IsSortedByAge : List RecentInbound → Type 0
IsSortedByAge [] = Unit
IsSortedByAge (e ∷ es) =
    All (λ (f : RecentInbound). e.last_seen_secs_ago ≤ f.last_seen_secs_ago) es × IsSortedByAge es

All-insert :
    (P : RecentInbound → Type 0) (e : RecentInbound) (es : List RecentInbound)
    → P e
    → All P es
    → All P (insert_by_age e es)
unfolding insert_by_age
All-insert P e [] h hs = (h, tt)
All-insert P e (f ∷ fs) h (g, gs) =
    elim (Bool-cases (leb e.last_seen_secs_ago f.last_seen_secs_ago)) [
      | inl t ↦ rw t (h, (g, gs))
      | inr t ↦ rw t (g, All-insert P e fs h gs)
    ]

insert-IsSortedByAge :
    (e : RecentInbound) (es : List RecentInbound)
    → IsSortedByAge es
    → IsSortedByAge (insert_by_age e es)
unfolding insert_by_age
insert-IsSortedByAge e [] h = (tt, tt)
insert-IsSortedByAge e (f ∷ fs) (h, hs) =
    elim (Bool-cases (leb e.last_seen_secs_ago f.last_seen_secs_ago)) [
      | inl t ↦
          let young : e.last_seen_secs_ago ≤ f.last_seen_secs_ago = ground arith in
          rw t ((young, All-map (λ g l. omega arith) fs h), (h, hs))
      | inr t ↦
          let old : f.last_seen_secs_ago ≤ e.last_seen_secs_ago = ground arith in
          rw t (
            All-insert (λ g. f.last_seen_secs_ago ≤ g.last_seen_secs_ago) e fs old h,
            insert-IsSortedByAge e fs hs,
          )
    ]

sort-IsSortedByAge : (es : List RecentInbound) → IsSortedByAge (sort_by_age es)
unfolding sort_by_age
sort-IsSortedByAge [] = tt
sort-IsSortedByAge (e ∷ es) = insert-IsSortedByAge e (sort_by_age es) (sort-IsSortedByAge es)

-- Sorting keeps whether some entry passes a test.
any-insert :
    (p : RecentInbound → Bool) (e : RecentInbound) (es : List RecentInbound)
    → any p (insert_by_age e es) ≡ (p e || any p es)
unfolding any insert_by_age
any-insert p e [] = refl
any-insert p e (f ∷ fs) = ground (arith, any-insert p e fs)

any-sort : (p : RecentInbound → Bool) (es : List RecentInbound) → any p (sort_by_age es) ≡ any p es
unfolding any sort_by_age
any-sort p [] = refl
any-sort p (e ∷ es) = any-insert p e (sort_by_age es) ∙ ap (λ (b : Bool). p e || b) (any-sort p es)

any-shown :
    (b : Option ℕ → Bool) (p : RecentInbound → Bool) (es : List RecentInbound)
    → any p (shown b es) ≡ any (λ e. is_shown b e && p e) es
unfolding any shown
any-shown b p [] = refl
any-shown b p (e ∷ es) = ground (arith, any-shown b p es)

any-view :
    (b : Option ℕ → Bool) (p : RecentInbound → Bool) (es : List RecentInbound)
    → any p (recent_inbound_view b es) ≡ any (λ e. is_shown b e && p e) es
unfolding recent_inbound_view
any-view b p es = any-sort p (shown b es) ∙ any-shown b p es

-- The entry of this peer, with this epoch and age.
abbrev pub is_entry : Text → Option ℕ → ℕ → RecentInbound → Bool
is_entry f l age e =
    text_eq e.fingerprint_hex f && same_epoch e.link_id l && e.last_seen_secs_ago == age

same_epoch_refl : (l : Option ℕ) → same_epoch l l ≡ true
unfolding same_epoch
same_epoch_refl none = refl
same_epoch_refl (some x) = ground arith

-- A peer that is seen, on a link whose epoch is not banned, while the map has fewer than 64 records
-- of the last 15 minutes, is shown by every Status of the next 15 minutes with its link and the
-- seconds since then, and Status shows the youngest first.
pub recent_inbound_links-note_inbound_seen :
    (now later : ℕ) (f n a : Text) (l : Option ℕ) (seen : List RecentInboundRecord)
    (ended : EndedLinks)
    → length (retain_fresh now seen) < 64
    → (later - now) / 1_000_000_000 ≤ 900
    → epoch_banned ended l ≡ false
    → let status = recent_inbound_links later ended (note_inbound_seen now f n a l seen) in
      (any (is_entry f l ((later - now) / 1_000_000_000)) status ≡ true) × IsSortedByAge status
unfolding recent_inbound_links note_inbound_seen any recent_inbound_view
recent_inbound_links-note_inbound_seen now later f n a l seen ended room soon free =
    let age = (later - now) / 1_000_000_000 in
    let b = epoch_banned ended in
    let fresh = retain_fresh now seen in
    let open_map : leb 64 (length fresh) ≡ false = ground arith in
    let young : leb age 900 ≡ true = ground arith in
    let seen' = note_inbound_seen now f n a l seen in
    let es = views later seen' in
    (
      any-view b (is_entry f l age) es
          ∙ rw (open_map, free, young, text_eq_refl f, same_epoch_refl l, ==_refl age) refl,
      sort-IsSortedByAge (shown b es),
    )

All-sort :
    (P : RecentInbound → Type 0) (es : List RecentInbound) → All P es → All P (sort_by_age es)
unfolding sort_by_age
All-sort P [] h = tt
All-sort P (e ∷ es) (h, hs) = All-insert P e (sort_by_age es) h (All-sort P es hs)

shown-All :
    (b : Option ℕ → Bool) (es : List RecentInbound) → All (λ e. b e.link_id ≡ false) (shown b es)
unfolding shown
shown-All b [] = tt
shown-All b (e ∷ es) = elim (Bool-cases (is_shown b e)) [
  | inl t ↦ rw t (ground arith, shown-All b es)
  | inr t ↦ rw t (shown-All b es)
]

not_epoch :
    (x : ℕ) (s : EndedLinks) (l : Option ℕ)
    → link_ended x s ≡ true
    → epoch_banned s l ≡ false
    → l ≢ some x
not_epoch x s none h e f = cc
not_epoch x s (some y) h e f =
    let g : y ≡ x = ground arith in let k = ap (λ (z : ℕ). link_ended z s) g in cc

-- A link that the user ends is shown by no later Status, whatever peers were seen, until the set of
-- bans changes.
pub recent_inbound_links-end_link :
    (now x : ℕ) (s : EndedLinks) (seen : List RecentInboundRecord)
    → All (λ (e : RecentInbound). e.link_id ≢ some x) (recent_inbound_links now (end_link x s) seen)
unfolding recent_inbound_links recent_inbound_view
recent_inbound_links-end_link now x s seen =
    let b = epoch_banned (end_link x s) in
    let es = views now seen in
    All-sort (λ e. e.link_id ≢ some x) (shown b es)
      (All-map (λ e h. not_epoch x (end_link x s) e.link_id (link_ended-end_link x s) h)
        (shown b es) (shown-All b es))

length-retain : (now : ℕ) (rs : List RecentInboundRecord) → length (retain_fresh now rs) ≤ length rs
unfolding retain_fresh
length-retain now [] = omega arith
length-retain now (r ∷ rs) = ground (arith, length-retain now rs)

length-forget :
    (f : Text) (rs : List RecentInboundRecord) → length (forget_recent_inbound f rs) ≤ length rs
unfolding forget_recent_inbound
length-forget f [] = omega arith
length-forget f (r ∷ rs) = ground (arith, length-forget f rs)

-- The map never has more than 64 records.
pub length-note_inbound_seen :
    (now : ℕ) (f n a : Text) (l : Option ℕ) (seen : List RecentInboundRecord)
    → length seen ≤ 64
    → length (note_inbound_seen now f n a l seen) ≤ 64
unfolding note_inbound_seen
length-note_inbound_seen now f n a l seen h =
    let fresh = retain_fresh now seen in
    let kept = length-retain now seen in let less = length-forget f fresh in ground arith
