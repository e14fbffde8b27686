-- ===== src/Clipboard/Offer.antt =====
-- kvm-daemon/src/service.rs: a local copy that the interface offers in chunks.
use thekvm.Prelude.{
  ℕ, zero, suc, ◌≤◌, ◌≡◌, refl, ◌∙◌, not, ◌||◌, Option, none, some, List, [], ◌∷◌, ◌++◌, ltb, leb,
  ◌==◌, if◌then◌else◌, either, is_none, length, any, All, arith, Bool-cases, Option-cases, inl, inr,
}
use thekvm.Prelude.Result.{Result, ok, err}
use thekvm.Prelude.Text.{Text, byte_length}
use thekvm.Prelude.Slices.{get_elem?, set, replicate, length-set, length-replicate}
use thekvm.Clipboard.{clipboard_chunk_bytes}
use thekvm.Clipboard.Receiver.{ClipboardKind, text_kind}

pub record LocalClipboardOffer : Type 0 where
  pub generation : ℕ
  pub kind : ClipboardKind
  pub payload : Text
  pub width : ℕ
  pub height : ℕ

pub record OfferAssembly : Type 0 where
  pub generation : ℕ
  pub kind : ClipboardKind
  pub total_chunks : ℕ
  pub chunks : List (Option Text)
  pub width : ℕ
  pub height : ℕ

-- One chunk of an offer.
pub record OfferChunk : Type 0 where
  pub generation : ℕ
  pub kind : ClipboardKind
  pub total_chunks : ℕ
  pub index : ℕ
  pub bytes : Text
  pub width : ℕ
  pub height : ℕ

pub data OfferError : Type 0 where
  malformed_offer oversized_offer_chunk mismatched_offer_chunk : OfferError

abbrev pub no_offer : OfferAssembly
no_offer = record {
  generation = 0;
  kind = text_kind;
  total_chunks = 0;
  chunks = [];
  width = 0;
  height = 0;
}

-- A chunk of another generation or count starts over.
unfoldable pub restarted : OfferAssembly → OfferChunk → OfferAssembly
restarted a c =
    if not (a.generation == c.generation) || not (a.total_chunks == c.total_chunks)
    then record {
      generation = c.generation;
      kind = c.kind;
      total_chunks = c.total_chunks;
      chunks = replicate c.total_chunks none;
      width = c.width;
      height = c.height;
    }
    else a

-- The chunks that have come, one after the other.
unfoldable pub joined : List (Option Text) → Text
joined [] = []
joined (none ∷ slots) = joined slots
joined (some bytes ∷ slots) = bytes ++ joined slots

abbrev pub OfferOutcome : Type 0
OfferOutcome = OfferAssembly × Result OfferError (Option LocalClipboardOffer)

unfoldable pub completed : OfferAssembly → OfferOutcome
unfolding any joined
completed a = if any is_none a.chunks then (a, ok none) else (
  no_offer,
  ok (
      some (record {
        generation = a.generation;
        kind = a.kind;
        payload = joined a.chunks;
        width = a.width;
        height = a.height;
      })),
)

unfoldable pub store_chunk : OfferAssembly → OfferChunk → OfferOutcome
unfolding completed
store_chunk a c = elim (get_elem? a.chunks c.index) [
  | none ↦ (a, err mismatched_offer_chunk)
  | some slot ↦ completed (record a { chunks = set a.chunks c.index (some c.bytes) })
]

unfoldable pub push_offer : OfferAssembly → OfferChunk → OfferOutcome
unfolding restarted store_chunk byte_length
push_offer a c =
    if c.generation == 0
      || c.total_chunks == 0
      || ltb 512 c.total_chunks
      || leb c.total_chunks c.index
    then (a, err malformed_offer)
    else if ltb clipboard_chunk_bytes (byte_length c.bytes)
    then (a, err oversized_offer_chunk)
    else store_chunk (restarted a c) c

abbrev IsOfferSlot : Option Text → Type 0
IsOfferSlot none = Unit
IsOfferSlot (some bytes) = byte_length bytes ≤ 49152

-- At most 512 chunks of at most 48 KiB, and as many slots as chunks.
abbrev pub IsOffer : OfferAssembly → Type 0
IsOffer a = (a.total_chunks ≤ 512) × (length a.chunks ≡ a.total_chunks) × All IsOfferSlot a.chunks

set-IsOfferSlot :
    (slots : List (Option Text)) (i : ℕ) (bytes : Text)
    → All IsOfferSlot slots
    → byte_length bytes ≤ 49152
    → All IsOfferSlot (set slots i (some bytes))
set-IsOfferSlot [] i bytes h l = tt
set-IsOfferSlot (s ∷ slots) zero bytes (h, hs) l = (l, hs)
set-IsOfferSlot (s ∷ slots) (suc i) bytes (h, hs) l = (h, set-IsOfferSlot slots i bytes hs l)

replicate-IsOfferSlot : (n : ℕ) → All IsOfferSlot (replicate n none)
replicate-IsOfferSlot zero = tt
replicate-IsOfferSlot (suc n) = (tt, replicate-IsOfferSlot n)

restarted-IsOffer :
    (a : OfferAssembly) (c : OfferChunk)
    → IsOffer a
    → c.total_chunks ≤ 512
    → IsOffer (restarted a c)
unfolding restarted
restarted-IsOffer a c h few =
    either IsOffer (not (a.generation == c.generation) || not (a.total_chunks == c.total_chunks)) _
      a (λ e. (few, length-replicate c.total_chunks none, replicate-IsOfferSlot c.total_chunks))
      (λ e. h)

completed-IsOffer : (a : OfferAssembly) → IsOffer a → IsOffer (completed a).0
unfolding completed
completed-IsOffer a h =
    either (λ (r : OfferOutcome). IsOffer r.0) (any is_none a.chunks) (a, ok none) _ (λ e. h)
      (λ e. (omega arith, refl, tt))

store_chunk-IsOffer :
    (a : OfferAssembly) (c : OfferChunk)
    → IsOffer a
    → byte_length c.bytes ≤ 49152
    → IsOffer (store_chunk a c).0
unfolding store_chunk
store_chunk-IsOffer a c (few, l, slots) small = elim (Option-cases (get_elem? a.chunks c.index)) [
  | inl e ↦ rw (store_chunk, e) (few, l, slots)
  | inr (slot, e) ↦
      rw (store_chunk, e)
        (completed-IsOffer (record a { chunks = set a.chunks c.index (some c.bytes) })
          (
            few,
            length-set a.chunks c.index (some c.bytes) ∙ l,
            set-IsOfferSlot a.chunks c.index c.bytes slots small,
          ))
]

-- Whatever chunks are pushed, an assembly of offers stays within 512 chunks of 48 KiB.
pub push_offer-IsOffer :
    (a : OfferAssembly) (c : OfferChunk) → IsOffer a → IsOffer (push_offer a c).0
unfolding push_offer
push_offer-IsOffer a c h =
    elim (Bool-cases (
      c.generation == 0
      || c.total_chunks == 0
      || ltb 512 c.total_chunks
      || leb c.total_chunks c.index)) [
        | inl e ↦ rw (push_offer, e) h
        | inr e ↦ elim (Bool-cases (ltb 49152 (byte_length c.bytes))) [
          | inl f ↦ rw (push_offer, e, f) h
          | inr f ↦
              rw (push_offer, e, f)
                (store_chunk-IsOffer (restarted a c) c (restarted-IsOffer a c h (ground arith))
                  (ground arith))
        ]
      ]
