-- ===== src/Wire/Bytes.antt =====
-- Big-endian fields and two's complement words.
use thekvm.Prelude.{
  ℕ, zero, suc, ◌-◌, ◌+◌, ◌*◌, ◌/◌, ◌%◌, ◌^◌, ◌<◌, ◌≤◌, ◌≡◌, refl, ap, sym, ◌∙◌, List, [], ◌∷◌, ltb,
  if◌then◌else◌, length, arith,
}
use native.Mathlib.Nat.{
  div-add-mod, mod-lt, mod-one, mod-eq_of_lt, mul-add-mod_self_left, pow-suc, one-le-pow,
}
use thekvm.Prelude.Int.{ℤ, pos, negsuc, pos_part, neg_part}

-- `to_be_bytes` of a word of so many bytes.
unfoldable pub be_bytes : ℕ → ℕ → List ℕ
be_bytes zero v = []
be_bytes (suc n) v = v / 256 ^ n % 256 ∷ be_bytes n v

-- `from_be_bytes`
unfoldable pub read_be : List ℕ → ℕ
read_be [] = 0
read_be (b ∷ bs) = b * 256 ^ length bs + read_be bs

-- A signed integer of so many bytes as a word, in two's complement, and back.
unfoldable pub to_word : ℕ → ℤ → ℕ
to_word size (pos n) = n
to_word size (negsuc n) = 256 ^ size - 1 - n

unfoldable pub from_word : ℕ → ℕ → ℤ
from_word size w = if ltb w (256 ^ size / 2) then pos w else negsuc (256 ^ size - 1 - w)

abbrev pub IsInt : ℕ → ℤ → Type 0
IsInt size a = (pos_part a < 256 ^ size / 2) × (neg_part a ≤ 256 ^ size / 2)

pub be_bytes-length : (n v : ℕ) → length (be_bytes n v) ≡ n
unfolding be_bytes
be_bytes-length zero v = refl
be_bytes-length (suc n) v = ap suc (be_bytes-length n v)

regroup : (p t d r : ℕ) → p * 256 * t + (d * p + r) ≡ p * (256 * t + d) + r
regroup p t d r = grind arith

below : (p d r : ℕ) → r < p → d < 256 → d * p + r < p * 256
below p d r h k = let most : d * p ≤ 255 * p = grind arith in omega arith

-- The top digit of base 256 and the rest.
split_mod : (v p : ℕ) → 0 < p → v / p % 256 * p + v % p ≡ v % (p * 256)
split_mod v p h =
    let q = v / p in
    let e : p * q + v % p ≡ v = div-add-mod v p in
    let f : 256 * (q / 256) + q % 256 ≡ q = div-add-mod q 256 in
    let whole : p * 256 * (q / 256) + (q % 256 * p + v % p) ≡ v =
      regroup p (q / 256) (q % 256) (v % p) ∙ ap (λ k. p * k + v % p) f ∙ e in
    let small : q % 256 * p + v % p < p * 256 =
      below p (q % 256) (v % p) (mod-lt v h) (mod-lt q (omega arith)) in
    sym (mod-eq_of_lt small)
    ∙ sym (mul-add-mod_self_left (p * 256) (q / 256) (q % 256 * p + v % p))
    ∙ ap (λ k. k % (p * 256)) whole

-- A field of n bytes holds its value modulo 256^n.
pub read_be-be_bytes : (n v : ℕ) → read_be (be_bytes n v) ≡ v % 256 ^ n
unfolding be_bytes read_be
read_be-be_bytes zero v = sym (mod-one v)
read_be-be_bytes (suc n) v =
    ap (λ k. v / 256 ^ n % 256 * 256 ^ k + read_be (be_bytes n v)) (be_bytes-length n v)
    ∙ ap (λ k. v / 256 ^ n % 256 * 256 ^ n + k) (read_be-be_bytes n v)
    ∙ split_mod v (256 ^ n) (one-le-pow n 256 (omega arith))
    ∙ ap (λ k. v % k) (sym (pow-suc 256 n))

pub from_word-to_word :
    (size : ℕ) (a : ℤ) → 0 < size → IsInt size a → from_word size (to_word size a) ≡ a
unfolding from_word to_word
from_word-to_word size a p h = ground arith

pub to_word-lt : (size : ℕ) (a : ℤ) → 0 < size → IsInt size a → to_word size a < 256 ^ size
unfolding to_word
to_word-lt size a p h = ground arith
