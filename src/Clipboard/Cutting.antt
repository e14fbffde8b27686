-- ===== src/Clipboard/Cutting.antt =====
-- kvm-daemon/src/service.rs: cutting a text at boundaries of code points.
use thekvm.Prelude.{
  ℕ, zero, suc, ◌+◌, ◌-◌, ◌<◌, ◌≤◌, ◌≡◌, refl, ap, ◌∙◌, true, [], ◌∷◌, ◌++◌, leb, length, All,
  arith, Bool-cases, inl, inr,
}
use mathlib.Core.List.{append-nil}
use thekvm.Prelude.Text.{Text, utf8_width, byte_length}
use thekvm.Prelude.Slices.{concat}
use thekvm.Clipboard.{cut, cut_rounds, split_clipboard_chunks}

pub byte_length-append : (a b : Text) → byte_length (a ++ b) ≡ byte_length a + byte_length b
unfolding byte_length
byte_length-append [] b = omega arith
byte_length-append (c ∷ a) b = omega (arith, byte_length-append a b)

width_small : (c : ℕ) → (0 < utf8_width c) × (utf8_width c ≤ 4)
unfolding utf8_width
width_small c = ground arith

cut-append : (room : ℕ) (s : Text) → (cut room s).0 ++ (cut room s).1 ≡ s
unfolding cut
cut-append room [] = refl
cut-append room (c ∷ s) = elim (Bool-cases (leb (utf8_width c) room)) [
  | inl e ↦ rw e (ap (c ∷◌) (cut-append (room - utf8_width c) s))
  | inr e ↦ rw e refl
]

cut_fits : (room : ℕ) (s : Text) → byte_length (cut room s).0 ≤ room
unfolding cut byte_length
cut_fits room [] = omega arith
cut_fits room (c ∷ s) = elim (Bool-cases (leb (utf8_width c) room)) [
  | inl e ↦
      let w : utf8_width c ≤ room = ground arith in
      rw e (omega (arith, cut_fits (room - utf8_width c) s))
  | inr e ↦ rw e (omega arith)
]

cut_shorter : (room : ℕ) (s : Text) → length (cut room s).1 ≤ length s
unfolding cut
cut_shorter room [] = omega arith
cut_shorter room (c ∷ s) = elim (Bool-cases (leb (utf8_width c) room)) [
  | inl e ↦ rw e (omega (arith, cut_shorter (room - utf8_width c) s))
  | inr e ↦ rw e (omega arith)
]

-- A cut with room for a code point takes one.
cut_progress :
    (room c : ℕ) (s : Text)
    → 4 ≤ room
    → (length (cut room (c ∷ s)).1 ≤ length s) × (0 < length (cut room (c ∷ s)).0)
unfolding cut
cut_progress room c s h =
    let e : leb (utf8_width c) room ≡ true = ground (arith, width_small c) in
    rw e (cut_shorter (room - utf8_width c) s, omega arith)

concat-cut_rounds : (n : ℕ) (s : Text) → length s ≤ n → concat (cut_rounds n s) ≡ s
unfolding cut_rounds concat
concat-cut_rounds zero [] h = refl
concat-cut_rounds zero (c ∷ s) h = absurd (omega arith)
concat-cut_rounds (suc n) [] h = refl
concat-cut_rounds (suc n) (c ∷ s) h =
    let (less, some_taken) = cut_progress 49152 c s (omega arith) in
    ap ((cut 49152 (c ∷ s)).0 ++◌) (concat-cut_rounds n (cut 49152 (c ∷ s)).1 (omega arith))
    ∙ cut-append 49152 (c ∷ s)

-- A chunk that fits a message.
abbrev pub IsChunk : Text → Type 0
IsChunk bytes = byte_length bytes ≤ 49152

cut_rounds-IsChunk : (n : ℕ) (s : Text) → All IsChunk (cut_rounds n s)
unfolding cut_rounds
cut_rounds-IsChunk zero s = tt
cut_rounds-IsChunk (suc n) [] = tt
cut_rounds-IsChunk (suc n) (c ∷ s) =
    (cut_fits 49152 (c ∷ s), cut_rounds-IsChunk n (cut 49152 (c ∷ s)).1)

pub cut_rounds-length : (n : ℕ) (s : Text) → length (cut_rounds n s) ≤ n
unfolding cut_rounds
cut_rounds-length zero s = omega arith
cut_rounds-length (suc n) [] = omega arith
cut_rounds-length (suc n) (c ∷ s) = omega (arith, cut_rounds-length n (cut 49152 (c ∷ s)).1)

-- The chunks of a text make it up, and each has at most 48 KiB.
pub split_clipboard_chunks_lem :
    (text : Text)
    → (concat (split_clipboard_chunks text) ≡ text) × All IsChunk (split_clipboard_chunks text)
unfolding split_clipboard_chunks concat
split_clipboard_chunks_lem text = elim (Bool-cases (leb (byte_length text) 49152)) [
  | inl e ↦ rw e (append-nil text, (ground arith, tt))
  | inr e ↦
      rw e
        (concat-cut_rounds (length text) text (omega arith), cut_rounds-IsChunk (length text) text)
]
