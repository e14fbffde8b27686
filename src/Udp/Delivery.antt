-- ===== src/Udp/Delivery.antt =====
-- kvm-protocol/src/udp.rs: the fragments of one message, delivered in any order and any number of
-- times.
use thekvm.Prelude.{
  ℕ, zero, suc, ◌+◌, ◌^◌, ◌<◌, ◌≤◌, ◌≡◌, refl, ap, ◌∙◌, Bool, true, false, ◌&&◌, none, some, List,
  [], ◌∷◌, length, arith, ltb, leb, ◌==◌, is_none, is_some, if◌then◌else◌, Bool-cases, ==_refl,
}
use native.Mathlib.Nat.{mod-eq_of_lt}
use thekvm.Prelude.Result.{ok}
use thekvm.Prelude.Slices.{
  get_elem?, set, replicate, concat, drop, slice, length-set, length-replicate,
}
use thekvm.Prelude.Dict.{
  get, put, remove, length-put, remove_shorter, get-put_same, get-remove_same,
}
use thekvm.Wire.Bytes.{be_bytes, read_be, read_be-be_bytes}
use thekvm.Udp.Reassembler.{
  Pending, Reassembly, Outcome, checked_fragment, fragment, number, parse_fragment, or_insert,
  new_entry, store, out_message, finish, join, accept, feed,
}
use thekvm.Udp.Slots.{
  mask, count_seen, all_seen, mask-replicate, count_seen-replicate, get_elem?-mask, set-mask,
  count_seen-set, set-true, count_seen_full, count_seen_less, collect-mask, get_elem?-some,
}
use mathlib.Core.Logic.{inl, inr}
use thekvm.Udp.Tally.{tally}

two_bytes : (v : ℕ) → v ≤ 256 → read_be (be_bytes 2 v) ≡ v
two_bytes v h = read_be-be_bytes 2 v ∙ mod-eq_of_lt (omega arith)

same_checked :
    (m m' i i' c c' : ℕ) (bytes : List ℕ)
    → m ≡ m'
    → i ≡ i'
    → c ≡ c'
    → checked_fragment m i c bytes ≡ checked_fragment m' i' c' bytes
same_checked m m' i i' c c' bytes e f g = cc

passes_checks :
    (m i c : ℕ) (bytes : List ℕ)
    → i < c
    → c ≤ 128
    → length bytes ≤ 896
    → checked_fragment m i c bytes
      ≡ ok (record { msg_id = m; index = i; count = c; data_bytes = bytes })
unfolding checked_fragment
passes_checks m i c bytes h k l = ground arith

skip_test : {A : Type 0} (n : ℕ) (x y : A) → 12 ≤ n → (if ltb n 12 then x else y) ≡ y
skip_test n x y h = ground arith

fragment-long : (m c i : ℕ) (chunk : List ℕ) → 12 ≤ length (fragment m c i chunk)
unfolding be_bytes
fragment-long m c i chunk = omega arith

-- A fragment is read back.
parse_fragment-fragment :
    (msg_id count index : ℕ) (chunk : List ℕ)
    → msg_id < 2 ^ 64
    → index < count
    → count ≤ 128
    → length chunk ≤ 896
    → parse_fragment (fragment msg_id count index chunk)
      ≡ ok (record { msg_id = msg_id; index = index; count = count; data_bytes = chunk })
unfolding parse_fragment be_bytes slice drop
parse_fragment-fragment msg_id count index chunk h i c l =
    let a : read_be (be_bytes 8 msg_id) ≡ msg_id = read_be-be_bytes 8 msg_id ∙ mod-eq_of_lt h in
    skip_test (length (fragment msg_id count index chunk)) _ _
      (fragment-long msg_id count index chunk)
    ∙ same_checked (read_be (be_bytes 8 msg_id)) msg_id (read_be (be_bytes 2 index)) index
        (read_be (be_bytes 2 count)) count chunk a (two_bytes index (omega arith))
        (two_bytes count (omega arith))
    ∙ passes_checks msg_id index count chunk i c l

module _ (msg_id : ℕ) (pieces : List (List ℕ)) where
  -- The entry of a message of which so many pieces have been seen.
  abbrev pub entry_of : List Bool → Reassembly
  entry_of seen = record {
    total = length pieces;
    chunks = mask seen pieces;
    received = count_seen seen;
  }

  -- The buffer holds the pieces that have been seen, and has room for the message.
  abbrev pub Holds : Pending → List Bool → Type 0
  Holds pending seen =
      (or_insert (get pending msg_id) (length pieces) ≡ entry_of seen)
      × (leb 16 (length pending) && is_none (get pending msg_id) ≡ false)
      × (length pending ≤ 16)
      × (length seen ≡ length pieces)

  store-entry_of :
      (seen : List Bool) (i : ℕ) (p : List ℕ)
      → length seen ≡ length pieces
      → i < length seen
      → get_elem? pieces i ≡ some p
      → store (entry_of seen) i p ≡ entry_of (set seen i true)
  unfolding store
  store-entry_of seen i p l h e =
      let (b, f) = get_elem?-some seen i h in
      let g = get_elem?-mask seen pieces i {b = b} {p = p} f e in
      elim (Bool-cases b) [
        | inl t ↦ rw (store, g, t, set-true seen i (f ∙ ap some t)) refl
        | inr t ↦
            rw (store, g, t, set-mask seen pieces i e, count_seen-set seen i (f ∙ ap some t)) refl
      ]

  -- The outcome is what the tally says, and the buffer holds the pieces that it says.
  abbrev pub Matches : Pending × Outcome → List Bool × Bool → Type 0
  Matches (pending, out) (seen, complete) =
      Holds pending seen × (out ≡ ok (if complete then some (concat pieces) else none))

  room-put :
      (pending : Pending) (seen : List Bool) (entry : Reassembly)
      → Holds pending seen
      → length (put pending msg_id entry) ≤ 16
  room-put pending seen entry (h, room, most, l) = ground (arith, length-put pending msg_id entry)

  pub new_entry-entry_of : new_entry (length pieces) ≡ entry_of (replicate (length pieces) false)
  new_entry-entry_of = rw (mask-replicate pieces, count_seen-replicate (length pieces)) refl

  Holds-remove :
      (kept : Pending) (entry : Reassembly)
      → get kept msg_id ≡ some entry
      → length kept ≤ 16
      → Holds (remove kept msg_id) (replicate (length pieces) false)
  Holds-remove kept entry e most =
      let shorter = remove_shorter kept msg_id (ap is_some e) in
      (
        rw (get-remove_same kept msg_id) new_entry-entry_of,
        ground arith,
        omega arith,
        length-replicate (length pieces) false,
      )

  Holds-put :
      (pending : Pending) (seen next : List Bool)
      → Holds pending seen
      → length next ≡ length pieces
      → Holds (put pending msg_id (entry_of next)) next
  Holds-put pending seen next h l = (
    rw (get-put_same pending msg_id (entry_of next)) refl,
    rw (get-put_same pending msg_id (entry_of next)) (ground arith),
    room-put pending seen (entry_of next) h,
    l,
  )

  finish-Matches :
      (pending : Pending) (seen next : List Bool)
      → Holds pending seen
      → length next ≡ length pieces
      → length seen ≡ length pieces
      → length (concat pieces) ≤ 65536
      → Matches
          (finish pending msg_id (entry_of next))
          (if all_seen next then (replicate (length seen) false, true) else (next, false))
  unfolding finish out_message
  finish-Matches pending seen next h l k small = elim (Bool-cases (all_seen next)) [
    | inl full ↦
        let n : (count_seen next == length pieces) ≡ true =
          ground (arith, count_seen_full next full) in
        rw (n, full, k, collect-mask next pieces l full)
          (
            Holds-remove (put pending msg_id (entry_of next)) (entry_of next)
                (get-put_same pending msg_id (entry_of next))
                (room-put pending seen (entry_of next) h),
            ground arith,
          )
    | inr part ↦
        let n : (count_seen next == length pieces) ≡ false =
          ground (arith, count_seen_less next part) in
        rw (n, part) (Holds-put pending seen next h l, refl)
  ]

  -- One piece of the message arrives.
  pub feed-Matches :
      (pending : Pending) (seen : List Bool) (i : ℕ) (p : List ℕ)
      → msg_id < 2 ^ 64
      → i < length pieces
      → length pieces ≤ 128
      → length p ≤ 896
      → length (concat pieces) ≤ 65536
      → get_elem? pieces i ≡ some p
      → Holds pending seen
      → Matches (feed pending (fragment msg_id (length pieces) i p)) (tally seen i)
  unfolding feed accept join tally
  feed-Matches pending seen i p m lt few short small at (h, room, most, l) =
      let next = set seen i true in
      rw
        (
          feed,
          accept,
          join,
          parse_fragment-fragment msg_id (length pieces) i p m lt few short,
          room,
          h,
          ==_refl (length pieces),
          store-entry_of seen i p l (omega arith) at,
        )
        (finish-Matches pending seen next (h, room, most, l) (length-set seen i true ∙ l) l small)

-- The elements at the places of `order`, one after the other.
abbrev pub picks {ℓ} : {A : Type ℓ} → List A → List ℕ → List A
picks xs [] = []
picks xs (i ∷ order) = elim (get_elem? xs i) [ none ↦ picks xs order | some x ↦ x ∷ picks xs order ]

pub get_elem?-number :
    (msg_id count start : ℕ) (pieces : List (List ℕ)) (i : ℕ) {p : List ℕ}
    → get_elem? pieces i ≡ some p
    → get_elem? (number msg_id count start pieces) i ≡ some (fragment msg_id count (start + i) p)
unfolding number
get_elem?-number msg_id count start [] i e = cc
get_elem?-number msg_id count start (q ∷ pieces) zero {p = p} e =
    let q_p : q ≡ p = ground arith in let s : start ≡ start + 0 = omega arith in cc
get_elem?-number msg_id count start (q ∷ pieces) (suc i) {p = p} e =
    let s : suc start + i ≡ start + suc i = omega arith in
    get_elem?-number msg_id count (suc start) pieces i e
    ∙ ap (λ k. some (fragment msg_id count k p)) s
