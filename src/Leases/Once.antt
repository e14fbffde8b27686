-- ===== src/Leases/Once.antt =====
-- kvm-daemon/src/service.rs: a link is torn down at most once for each lease.
use thekvm.Prelude.{
  ℕ, ◌+◌, ◌^◌, ◌<◌, ◌≡◌, ◌≢◌, refl, sym, Bool, true, ◌||◌, Option, none, some, List, [], ◌∷◌,
  length, find, All, All-map, Distinct, find-All, find-passes, arith, Bool-cases, Option-cases, inl,
  inr, ==_refl,
}
use mathlib.Core.Path.{subst}
use thekvm.Prelude.Text.{Text, text_eq→eq, text_eq_refl}
use thekvm.Leases.{
  OutboundLease, LeaseInfo, Leases, same_epoch, has_key, without_key, lease_begin, is_live, refresh,
  lease_touch, taken, lease_end, has_epoch, has_address, take_lease, LeaseOp, begins, touches, ends,
  takes, step, steps,
}
use thekvm.Leases.Ids.{
  IsRetired, All-without_key, All-refresh, steps-IsRetired, retired_ends_nothing, taken-next_id,
}

abbrev pub lease_id : OutboundLease → ℕ
lease_id r = r.id

-- Every lease has an id of its own that the counter has passed.
abbrev pub IsIssued : Leases → Type 0
IsIssued s = All (λ (r : OutboundLease). r.id < s.next_id) s.leases × Distinct lease_id s.leases

same_epoch_refl : (l : Option ℕ) → same_epoch l l ≡ true
unfolding same_epoch
same_epoch_refl none = refl
same_epoch_refl (some a) = ==_refl a

own_key : (r : OutboundLease) → has_key r.fingerprint_hex r.link_id r ≡ true
own_key r = rw (text_eq_refl r.fingerprint_hex, same_epoch_refl r.link_id) refl

without_key-Distinct :
    (k : Text) (l : Option ℕ) (rs : List OutboundLease)
    → Distinct lease_id rs
    → Distinct lease_id (without_key k l rs)
unfolding without_key
without_key-Distinct k l [] h = tt
without_key-Distinct k l (r ∷ rs) (h, hs) = elim (Bool-cases (has_key k l r)) [
  | inl e ↦ rw e (without_key-Distinct k l rs hs)
  | inr e ↦ rw e (All-without_key (λ q. q.id ≢ r.id) k l rs h, without_key-Distinct k l rs hs)
]

refresh-Distinct :
    (p : OutboundLease → Bool) (now : ℕ) (rs : List OutboundLease)
    → Distinct lease_id rs
    → Distinct lease_id (refresh p now rs)
unfolding refresh
refresh-Distinct p now [] h = tt
refresh-Distinct p now (r ∷ rs) (h, hs) =
    let rest = All-refresh (λ q. q.id ≢ r.id) p now rs (λ q t e. e) h in
    elim (Bool-cases (p r)) [
      | inl e ↦ rw e (rest, refresh-Distinct p now rs hs)
      | inr e ↦ rw e (rest, refresh-Distinct p now rs hs)
    ]

taken-IsIssued : (o : Option OutboundLease) (s : Leases) → IsIssued s → IsIssued (taken o s).0
unfolding taken
taken-IsIssued none s h = h
taken-IsIssued (some r) s (h, d) = (
  All-without_key (λ q. q.id < s.next_id) r.fingerprint_hex r.link_id s.leases h,
  without_key-Distinct r.fingerprint_hex r.link_id s.leases d,
)

-- Every operation keeps the ids issued, while the counter is below its last value.
pub step-IsIssued :
    (s : Leases) (op : LeaseOp) → s.next_id + 1 < 2 ^ 64 → IsIssued s → IsIssued (step s op)
unfolding step lease_begin lease_touch lease_end take_lease
step-IsIssued s (begins now k a l) b (h, d) =
    let rest = All-without_key (λ r. r.id < s.next_id) k l s.leases h in
    (
      (omega arith, All-map (λ r e. omega arith) (without_key k l s.leases) rest),
      (
        All-map (λ r e f. omega arith) (without_key k l s.leases) rest,
        without_key-Distinct k l s.leases d,
      ),
    )
step-IsIssued s (touches now k l i) b (h, d) = (
  All-refresh (λ r. r.id < s.next_id) _ now s.leases (λ r t e. e) h,
  refresh-Distinct _ now s.leases d,
)
step-IsIssued s (ends k l i) b h = taken-IsIssued (find (is_live k l i) s.leases) s h
step-IsIssued s (takes l a) b h =
    taken-IsIssued (find (λ (r : OutboundLease). has_epoch l r || has_address a r) s.leases) s h

-- Taking out the key of a lease that was found retires its id.
key_taken :
    (p : OutboundLease → Bool) (rs : List OutboundLease) (r : OutboundLease)
    → Distinct lease_id rs
    → find p rs ≡ some r
    → All (λ (q : OutboundLease). q.id ≢ r.id) (without_key r.fingerprint_hex r.link_id rs)
unfolding find without_key
key_taken p [] r d e = cc
key_taken p (x ∷ rs) r (d, ds) e = elim (Bool-cases (p x)) [
  | inl hit ↦
      let same : x ≡ r = ground arith in
      let own =
        subst (λ (y : OutboundLease). has_key y.fingerprint_hex y.link_id x ≡ true) same
          (own_key x) in
      let apart =
        subst (λ (y : OutboundLease). All (λ (q : OutboundLease). q.id ≢ y.id) rs) same d in
      rw own (All-without_key (λ q. q.id ≢ r.id) r.fingerprint_hex r.link_id rs apart)
  | inr miss ↦
      let found : find p rs ≡ some r = ground arith in
      let rest = key_taken p rs r ds found in
      let other = find-All (λ (q : OutboundLease). q.id ≢ x.id) p rs d found in
      elim (Bool-cases (has_key r.fingerprint_hex r.link_id x)) [
        | inl e' ↦ rw e' rest
        | inr e' ↦ rw e' ((λ f. other (sym f)), rest)
      ]
]

found_end :
    (k : Text) (l : Option ℕ) (id : ℕ) (s : Leases) (info : LeaseInfo)
    → (lease_end k l id s).1 ≡ some info
    → (r : OutboundLease) × (find (is_live k l id) s.leases ≡ some r)
unfolding lease_end taken
found_end k l id s info e = elim (Option-cases (find (is_live k l id) s.leases)) [
  | inl f ↦ let none_found : (lease_end k l id s).1 ≡ none = rw (lease_end, f) refl in cc
  | inr found ↦ found
]

end_retires :
    (k : Text) (l : Option ℕ) (id : ℕ) (s : Leases) (r : OutboundLease)
    → IsIssued s
    → find (is_live k l id) s.leases ≡ some r
    → IsRetired id (lease_end k l id s).0
unfolding lease_end taken
end_retires k l id s r (h, d) e =
    let live = find-passes (is_live k l id) s.leases e in
    let same : r.id ≡ id = ground arith in
    let old = find-All (λ (q : OutboundLease). q.id < s.next_id) (is_live k l id) s.leases h e in
    let gone = key_taken (is_live k l id) s.leases r d e in
    rw e (
      omega arith,
      subst
          (λ (i : ℕ).
            All (λ (q : OutboundLease). q.id ≢ i)
              (without_key r.fingerprint_hex r.link_id s.leases))
          same gone,
    )

end-next_id :
    (k : Text) (l : Option ℕ) (id : ℕ) (s : Leases) → (lease_end k l id s).0.next_id ≡ s.next_id
unfolding lease_end
end-next_id k l id s = taken-next_id (find (is_live k l id) s.leases) s

same_epoch→eq : (a b : Option ℕ) → same_epoch a b ≡ true → a ≡ b
unfolding same_epoch
same_epoch→eq none none e = refl
same_epoch→eq none (some b) e = cc
same_epoch→eq (some a) none e = cc
same_epoch→eq (some a) (some b) e = ground arith

begin_retires :
    (now : ℕ) (k a : Text) (l : Option ℕ) (s : Leases) (r : OutboundLease)
    → IsIssued s
    → s.next_id + 1 < 2 ^ 64
    → find (has_key k l) s.leases ≡ some r
    → IsRetired r.id (lease_begin now k a l s).0
      × ((lease_begin now k a l s).0.next_id ≡ s.next_id + 1)
unfolding lease_begin
begin_retires now k a l s r (h, d) b e =
    let found = find-passes (has_key k l) s.leases e in
    let same_k : r.fingerprint_hex ≡ k = text_eq→eq r.fingerprint_hex k (ground arith) in
    let same_l : r.link_id ≡ l = same_epoch→eq r.link_id l (ground arith) in
    let old = find-All (λ (q : OutboundLease). q.id < s.next_id) (has_key k l) s.leases h e in
    let gone = key_taken (has_key k l) s.leases r d e in
    let rest =
      subst (λ (x : Text). All (λ (q : OutboundLease). q.id ≢ r.id) (without_key x l s.leases))
        same_k
        (subst
          (λ (x : Option ℕ).
            All (λ (q : OutboundLease). q.id ≢ r.id) (without_key r.fingerprint_hex x s.leases))
          same_l gone) in
    ((omega arith, ((λ f. omega arith), rest)), omega arith)

-- The end of a lease hands out what its teardown needs at most once: after an end that did, no later
-- operations make an end with that id, of any link, hand out anything again, while the counter of
-- ids does not wrap.
pub lease_end-once :
    (k k' : Text) (l l' : Option ℕ) (id : ℕ) (s : Leases) (info : LeaseInfo) (ops : List LeaseOp)
    → IsIssued s
    → s.next_id + length ops < 2 ^ 64
    → (lease_end k l id s).1 ≡ some info
    → (lease_end k' l' id (steps (lease_end k l id s).0 ops)).1 ≡ none
lease_end-once k k' l l' id s info ops h b e =
    let (r, f) = found_end k l id s info e in
    let retired = end_retires k l id s r h f in
    let same = end-next_id k l id s in
    retired_ends_nothing id k' l' (steps (lease_end k l id s).0 ops)
      (steps-IsRetired id ops (lease_end k l id s).0 (omega arith) retired)

-- A new lease of a link supersedes the one that the link had: whatever happens later, the child of
-- the old lease ends nothing, while the counter of ids does not wrap.
pub lease_begin-supersedes :
    (now : ℕ) (k a : Text) (l : Option ℕ) (s : Leases) (r : OutboundLease) (ops : List LeaseOp)
    → IsIssued s
    → s.next_id + length ops + 1 < 2 ^ 64
    → find (has_key k l) s.leases ≡ some r
    → (lease_end k l r.id (steps (lease_begin now k a l s).0 ops)).1 ≡ none
lease_begin-supersedes now k a l s r ops h b e =
    let (retired, near) = begin_retires now k a l s r h (omega arith) e in
    retired_ends_nothing r.id k l (steps (lease_begin now k a l s).0 ops)
      (steps-IsRetired r.id ops (lease_begin now k a l s).0 (omega arith) retired)
