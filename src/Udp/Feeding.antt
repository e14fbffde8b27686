-- ===== src/Udp/Feeding.antt =====
-- kvm-protocol/src/udp.rs: feeding any bytes to the reassembly buffer.
use thekvm.Prelude.{
  ℕ, ◌<◌, ◌≤◌, ◌≡◌, ◌≢◌, refl, sym, false, ◌&&◌, none, some, List, length, arith, All, leb, ltb,
  ◌==◌, is_none, Bool-cases, Option-cases, inl, inr, ◌⊎◌,
}
use thekvm.Prelude.Result.{ok, err, Result-cases}
use thekvm.Prelude.Slices.{slice, drop, length-replicate}
use thekvm.Prelude.Dict.{
  get, put, length-put, length-remove, remove-put, All-put, All-remove, All-get,
}
use thekvm.Udp.{UdpError, fragment_too_short, missing_fragment}
use thekvm.Wire.Bytes.{read_be}
use thekvm.Udp.Bounded.{
  IsSound, IsWaiting, IsBounded, filled-replicate, replicate-IsSlot, filled_most, collect_full,
  store-IsSound,
}
use thekvm.Udp.Reassembler.{
  Pending, Reassembly, Fragment, Outcome, parse_fragment, checked_fragment, or_insert, new_entry,
  store, out_message, finish, join, accept, feed,
}

-- An outcome that is no missing fragment, and no message longer than 65536 bytes.
abbrev pub IsOutcome : Outcome → Type 0
IsOutcome (ok none) = Unit
IsOutcome (ok (some message)) = length message ≤ 65536
IsOutcome (err e) = e ≢ missing_fragment

abbrev pub IsHandled : Pending × Outcome → Type 0
IsHandled (pending, out) = IsBounded pending × IsOutcome out

out_message-IsOutcome : (out : List ℕ) → IsOutcome (out_message out)
unfolding out_message
out_message-IsOutcome out = elim (Bool-cases (ltb 65536 (length out))) [
  | inl e ↦ rw (out_message, e) (λ f. cc)
  | inr e ↦ rw (out_message, e) (ground arith)
]

room-put :
    (pending : Pending) (msg_id : ℕ) (entry : Reassembly)
    → length pending ≤ 16
    → (leb 16 (length pending) && is_none (get pending msg_id)) ≡ false
    → length (put pending msg_id entry) ≤ 16
room-put pending msg_id entry most room = ground (arith, length-put pending msg_id entry)

finish-IsHandled :
    (pending : Pending) (msg_id : ℕ) (entry : Reassembly)
    → IsBounded pending
    → (leb 16 (length pending) && is_none (get pending msg_id)) ≡ false
    → IsSound entry
    → IsHandled (finish pending msg_id entry)
unfolding finish
finish-IsHandled pending msg_id entry (most, waiting) room (p, few, l, count, slots) =
    let fits = room-put pending msg_id entry most room in
    elim (Bool-cases (entry.received == entry.total)) [
      | inl e ↦
          let (out, c) = collect_full entry.chunks (ground arith) in
          rw (finish, e, c)
            (
              (
                omega (arith, length-remove (put pending msg_id entry) msg_id),
                rw (remove-put pending msg_id entry) (All-remove IsWaiting pending msg_id waiting),
              ),
              out_message-IsOutcome out,
            )
      | inr e ↦
          let less : entry.received < entry.total = ground (arith, filled_most entry.chunks) in
          rw (finish, e)
            (
              (
                fits,
                All-put IsWaiting pending msg_id entry waiting ((p, few, l, count, slots), less),
              ),
              tt,
            )
    ]

join-IsHandled :
    (pending : Pending) (f : Fragment) (entry : Reassembly)
    → IsBounded pending
    → (leb 16 (length pending) && is_none (get pending f.msg_id)) ≡ false
    → IsSound entry
    → entry.received < entry.total
    → length f.data_bytes ≤ 896
    → IsHandled (join pending f entry)
unfolding join
join-IsHandled pending f entry bounded room sound less small =
    elim (Bool-cases (entry.total == f.count)) [
      | inl e ↦
          rw (join, e)
            (finish-IsHandled pending f.msg_id (store entry f.index f.data_bytes) bounded room
              (store-IsSound entry f.index f.data_bytes sound small))
      | inr e ↦
          rw (join, e)
            (
              (
                room-put pending f.msg_id entry bounded.0 room,
                All-put IsWaiting pending f.msg_id entry bounded.1 (sound, less),
              ),
              λ g. cc,
            )
    ]

new_entry-IsWaiting :
    (msg_id count : ℕ) → 0 < count → count ≤ 128 → IsWaiting (msg_id, new_entry count)
new_entry-IsWaiting msg_id count p most = (
  (p, most, length-replicate count none, sym (filled-replicate count), replicate-IsSlot count),
  p,
)

or_insert-IsWaiting :
    (pending : Pending) (msg_id count : ℕ)
    → All IsWaiting pending
    → 0 < count
    → count ≤ 128
    → IsWaiting (msg_id, or_insert (get pending msg_id) count)
or_insert-IsWaiting pending msg_id count h p most = elim (Option-cases (get pending msg_id)) [
  | inl e ↦ rw e (new_entry-IsWaiting msg_id count p most)
  | inr (entry, e) ↦ rw e (All-get IsWaiting pending msg_id h e)
]

-- A fragment that has passed the tests of its header.
abbrev IsChecked : Fragment → Type 0
IsChecked f = (0 < f.count) × (f.count ≤ 128) × (f.index < f.count) × (length f.data_bytes ≤ 896)

accept-IsHandled :
    (pending : Pending) (f : Fragment)
    → IsBounded pending
    → IsChecked f
    → IsHandled (accept pending f)
unfolding accept
accept-IsHandled pending f bounded (p, most, lt, small) =
    elim (Bool-cases (leb 16 (length pending) && is_none (get pending f.msg_id))) [
      | inl e ↦ rw (accept, e) (bounded, λ g. cc)
      | inr e ↦
          let (sound, less) = or_insert-IsWaiting pending f.msg_id f.count bounded.1 p most in
          rw (accept, e)
            (join-IsHandled pending f (or_insert (get pending f.msg_id) f.count) bounded e sound
              less small)
    ]

checked_fragment-IsChecked :
    (m i c : ℕ) (bytes : List ℕ) {f : Fragment} → checked_fragment m i c bytes ≡ ok f → IsChecked f
unfolding checked_fragment
checked_fragment-IsChecked m i c bytes {f = f} e = ground arith

checked_fragment-err :
    (m i c : ℕ) (bytes : List ℕ) {e : UdpError}
    → checked_fragment m i c bytes ≡ err e
    → e ≢ missing_fragment
unfolding checked_fragment
checked_fragment-err m i c bytes {e = e} h = ground arith

parse_fragment-cases :
    (body : List ℕ)
    → ((f : Fragment) × (parse_fragment body ≡ ok f) × IsChecked f)
      ⊎ ((e : UdpError) × (parse_fragment body ≡ err e) × (e ≢ missing_fragment))
unfolding parse_fragment
parse_fragment-cases body = elim (Bool-cases (ltb (length body) 12)) [
  | inl short ↦ inr (fragment_too_short, rw short refl, λ g. cc)
  | inr long ↦
      let m = read_be (slice 0 8 body) in
      let i = read_be (slice 8 10 body) in
      let c = read_be (slice 10 12 body) in
      let bytes = drop 12 body in
      elim (Result-cases (checked_fragment m i c bytes)) [
        | inl (f, e) ↦ inl (f, rw long e, checked_fragment-IsChecked m i c bytes e)
        | inr (e, h) ↦ inr (e, rw long h, checked_fragment-err m i c bytes h)
      ]
]

-- Whatever bytes are fed to a bounded buffer, it stays bounded: at most 16 messages wait, each of
-- at most 128 fragments of at most 896 bytes, with as many slots as fragments, its count that of
-- the filled slots and below the total. The outcome is never a missing fragment, and a message is
-- at most 65536 bytes.
pub feed-IsHandled :
    (pending : Pending) (body : List ℕ) → IsBounded pending → IsHandled (feed pending body)
unfolding feed
feed-IsHandled pending body bounded = elim (parse_fragment-cases body) [
  | inl (f, e, checked) ↦ rw (feed, e) (accept-IsHandled pending f bounded checked)
  | inr (e, h, other) ↦ rw (feed, h) (bounded, other)
]
