-- ===== src/Udp/Reliable.antt =====
-- kvm-protocol/src/udp.rs: splitting a reliable message and putting it together again, against the
-- tally of the pieces seen.
use thekvm.Prelude.{
  ℕ, zero, suc, ◌+◌, ◌*◌, ◌^◌, ◌<◌, ◌≤◌, ◌≡◌, refl, ap, ◌∙◌, Bool, true, false, ◌||◌, none, some,
  List, [], ◌∷◌, length, arith, map, All-map, All, any, ltb, ◌==◌, if◌then◌else◌, Bool-cases, inl,
  inr, ◌⊎◌,
}
use mathlib.Core.Path.{subst}
use thekvm.Prelude.Result.{Result, ok, err}
use thekvm.Prelude.Text.{text_eq, text_eq_refl}
use thekvm.Prelude.Slices.{
  get_elem?, replicate, concat, chunks, concat-chunks, chunks-length, chunks-IsPiece,
  length-replicate,
}
use thekvm.Prelude.Dict.{get}
use thekvm.Udp.{UdpError, payload_size_out_of_range}
use thekvm.Wire.Bytes.{be_bytes}
use thekvm.Udp.Reassembler.{Pending, Outcome, fragment, number, feeds, split_reliable, div_ceil}
use thekvm.Udp.Slots.{get_elem?-some}
use thekvm.Udp.Tally.{tallies, contains, tallies_complete, all_seen-replicate}
use thekvm.Udp.Delivery.{picks, get_elem?-number, Holds, feed-Matches, new_entry-entry_of}

-- What the delivery of one piece returns.
abbrev pub outcome_of : List ℕ → Bool → Outcome
outcome_of payload complete = ok (if complete then some payload else none)

get_elem?-All {ℓ κ} :
    {A : Type ℓ} (P : A → Type κ) (xs : List A) (i : ℕ) {a : A}
    → All P xs
    → get_elem? xs i ≡ some a
    → P a
get_elem?-All P [] i h e = cc
get_elem?-All P (x ∷ xs) zero {a = a} h e = let x_a : x ≡ a = ground arith in subst P x_a h.0
get_elem?-All P (x ∷ xs) (suc i) h e = get_elem?-All P xs i h.1 e

pub length-number :
    (msg_id count start : ℕ) (pieces : List (List ℕ))
    → length (number msg_id count start pieces) ≡ length pieces
unfolding number
length-number msg_id count start [] = refl
length-number msg_id count start (p ∷ pieces) =
    ap suc (length-number msg_id count (suc start) pieces)

module _ (msg_id : ℕ) (pieces : List (List ℕ)) (m : msg_id < 2 ^ 64) (few : length pieces ≤ 128)
    (small : length (concat pieces) ≤ 65536) (short : All (λ p. length p ≤ 896) pieces) where
  abbrev fragments : List (List ℕ)
  fragments = number msg_id (length pieces) 0 pieces

  get_elem?-fragments :
      (i : ℕ) {p : List ℕ}
      → get_elem? pieces i ≡ some p
      → get_elem? fragments i ≡ some (fragment msg_id (length pieces) i p)
  get_elem?-fragments i {p = p} e =
      let s : 0 + i ≡ i = omega arith in
      get_elem?-number msg_id (length pieces) 0 pieces i e
      ∙ ap (λ k. some (fragment msg_id (length pieces) k p)) s

  run_tallies :
      (order : List ℕ) (pending : Pending) (seen : List Bool)
      → All (λ i. i < length pieces) order
      → Holds msg_id pieces pending seen
      → (feeds pending (picks fragments order)).1
        ≡ map (outcome_of (concat pieces)) (tallies seen order).1
  unfolding feeds tallies
  run_tallies [] pending seen h holds = refl
  run_tallies (i ∷ order) pending seen (h, hs) holds =
      let (p, e) = get_elem?-some pieces i h in
      let (next, out) =
        feed-Matches msg_id pieces pending seen i p m h few
          (get_elem?-All (λ q. length q ≤ 896) pieces i short e) small e holds in
      rw (get_elem?-fragments i e, feeds, out, run_tallies order _ _ hs next) refl

-- What splitting a payload makes of it.
abbrev Splits : ℕ → List ℕ → List (List ℕ) → Type 0
Splits msg_id payload fragments =
    (fragments ≡ number msg_id (length (chunks 896 payload)) 0 (chunks 896 payload))
    × (0 < length (chunks 896 payload))
    × (length (chunks 896 payload) ≤ 74)
    × (length payload ≤ 65536)

count_pieces : (n l : ℕ) → l ≤ n * 896 → n * 896 < l + 896 → div_ceil l 896 ≡ n
count_pieces n l h k = omega arith

split_ok :
    (msg_id : ℕ) (payload : List ℕ)
    → 0 < length payload
    → length payload ≤ 65536
    → split_reliable msg_id payload
      ≡ ok (number msg_id (length (chunks 896 payload)) 0 (chunks 896 payload))
unfolding split_reliable
split_ok msg_id payload p small =
    let (low, high) = chunks-length 896 payload (omega arith) in
    let n = count_pieces (length (chunks 896 payload)) (length payload) low high in
    let few : length (chunks 896 payload) ≤ 74 = omega arith in rw n (ground arith)

split-range :
    (msg_id : ℕ) (payload : List ℕ) (fragments : List (List ℕ))
    → split_reliable msg_id payload ≡ ok fragments
    → (0 < length payload) × (length payload ≤ 65536)
unfolding split_reliable
split-range msg_id payload fragments e = ground arith

ok_same :
    (xs ys : List (List ℕ)) (r : Result UdpError (List (List ℕ))) → r ≡ ok xs → r ≡ ok ys → xs ≡ ys
ok_same xs ys r e f = cc

split-Splits :
    (msg_id : ℕ) (payload : List ℕ) (fragments : List (List ℕ))
    → split_reliable msg_id payload ≡ ok fragments
    → Splits msg_id payload fragments
split-Splits msg_id payload fragments e =
    let (p, small) = split-range msg_id payload fragments e in
    let (low, high) = chunks-length 896 payload (omega arith) in
    (
      ok_same fragments _ (split_reliable msg_id payload) e (split_ok msg_id payload p small),
      omega arith,
      omega arith,
      small,
    )

short_pieces : (payload : List ℕ) → All (λ p. length p ≤ 896) (chunks 896 payload)
short_pieces payload =
    All-map (λ p h. h.1) (chunks 896 payload) (chunks-IsPiece 896 payload (omega arith))

number-short :
    (msg_id count start : ℕ) (pieces : List (List ℕ))
    → All (λ p. length p ≤ 896) pieces
    → All (λ f. length f ≤ 908) (number msg_id count start pieces)
unfolding number be_bytes
number-short msg_id count start [] h = tt
number-short msg_id count start (p ∷ pieces) (h, hs) =
    (omega arith, number-short msg_id count (suc start) pieces hs)

-- A payload of 1 to 65536 bytes is always split, into at most 74 fragments of at most 908 bytes,
-- so the limit of 128 fragments is never met; every other payload is refused for its size.
pub split_reliable-cases :
    (msg_id : ℕ) (payload : List ℕ)
    → ((fragments : List (List ℕ)) × (split_reliable msg_id payload ≡ ok fragments)
        × (0 < length payload)
        × (length payload ≤ 65536)
        × (length fragments ≤ 74)
        × All (λ f. length f ≤ 908) fragments)
      ⊎ ((split_reliable msg_id payload ≡ err payload_size_out_of_range)
          × ((length payload ≡ 0) ⊎ (65536 < length payload)))
unfolding split_reliable
split_reliable-cases msg_id payload =
    elim (Bool-cases (length payload == 0 || ltb 65536 (length payload))) [
      | inl out ↦ inr (rw (split_reliable, out) refl, ground arith)
      | inr fits ↦
          let p : 0 < length payload = ground arith in
          let small : length payload ≤ 65536 = ground arith in
          let pieces = chunks 896 payload in
          let made = split_ok msg_id payload p small in
          let (same, p', few, small') = split-Splits msg_id payload _ made in
          inl (
            number msg_id (length pieces) 0 pieces,
            made,
            p,
            small,
            omega (arith, length-number msg_id (length pieces) 0 pieces),
            number-short msg_id (length pieces) 0 pieces (short_pieces payload),
          )
    ]

-- The buffer as it is before a message begins.
Holds-none :
    (msg_id : ℕ) (pieces : List (List ℕ)) (pending : Pending)
    → get pending msg_id ≡ none
    → length pending < 16
    → Holds msg_id pieces pending (replicate (length pieces) false)
Holds-none msg_id pieces pending e room = (
  rw e (new_entry-entry_of msg_id pieces),
  ground arith,
  omega arith,
  length-replicate (length pieces) false,
)

-- Refinement: a message that is split into fragments, whose fragments are delivered in any order
-- and any number of times to a buffer that has no entry for it and fewer than 16 others, has at
-- each delivery the outcome of the tally: the whole payload when every fragment has been seen
-- since it was last complete, and otherwise no message and no error.
pub feeds-tallies :
    (msg_id : ℕ) (payload : List ℕ) (fragments : List (List ℕ)) (pending : Pending) (order : List ℕ)
    → msg_id < 2 ^ 64
    → split_reliable msg_id payload ≡ ok fragments
    → get pending msg_id ≡ none
    → length pending < 16
    → All (λ i. i < length fragments) order
    → (feeds pending (picks fragments order)).1
      ≡ map (outcome_of payload) (tallies (replicate (length fragments) false) order).1
feeds-tallies msg_id payload fragments pending order m e new room h =
    let pieces = chunks 896 payload in
    let (made, p, few, small) = split-Splits msg_id payload fragments e in
    let whole : concat pieces ≡ payload = concat-chunks 896 payload (omega arith) in
    let n : length fragments ≡ length pieces =
      ap length made ∙ length-number msg_id (length pieces) 0 pieces in
    let run =
      run_tallies msg_id pieces m (omega arith) (omega (arith, ap length whole))
        (short_pieces payload) order pending (replicate (length pieces) false)
        (subst (λ k. All (λ i. i < k) order) n h) (Holds-none msg_id pieces pending new room) in
    rw (n, made)
      (run ∙ ap (λ w. map (outcome_of w) (tallies (replicate (length pieces) false) order).1) whole)

-- The outcome is this message.
unfoldable pub delivers : List ℕ → Outcome → Bool
unfolding text_eq
delivers payload (err e) = false
delivers payload (ok none) = false
delivers payload (ok (some message)) = text_eq message payload

any-delivers :
    (payload : List ℕ) (flags : List Bool)
    → any (λ f. f) flags ≡ true
    → any (delivers payload) (map (outcome_of payload) flags) ≡ true
unfolding any delivers
any-delivers payload [] h = cc
any-delivers payload (true ∷ flags) h = rw (text_eq_refl payload) refl
any-delivers payload (false ∷ flags) h = any-delivers payload flags h

-- Liveness: when each fragment of a message is delivered at least once, in any order, to a buffer
-- that has no entry for it and fewer than 16 others, some delivery returns the whole payload.
pub feeds-delivers :
    (msg_id : ℕ) (payload : List ℕ) (fragments : List (List ℕ)) (pending : Pending) (order : List ℕ)
    → msg_id < 2 ^ 64
    → split_reliable msg_id payload ≡ ok fragments
    → get pending msg_id ≡ none
    → length pending < 16
    → All (λ i. i < length fragments) order
    → ((i : ℕ) → i < length fragments → contains order i ≡ true)
    → any (delivers payload) (feeds pending (picks fragments order)).1 ≡ true
feeds-delivers msg_id payload fragments pending order m e new room h every =
    let (made, p, few, small) = split-Splits msg_id payload fragments e in
    let n : length fragments ≡ length (chunks 896 payload) =
      ap length made ∙ length-number msg_id (length (chunks 896 payload)) 0 (chunks 896 payload) in
    let seen = replicate (length fragments) false in
    rw (feeds-tallies msg_id payload fragments pending order m e new room h) (
      any-delivers payload (tallies seen order).1 (
        tallies_complete seen order (all_seen-replicate (length fragments) (omega arith))
          (λ i l. inr (every i (omega (arith, length-replicate (length fragments) false))))))
