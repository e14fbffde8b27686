-- ===== src/Udp/Symmetry.antt =====
-- kvm-protocol/src/udp.rs: what both ends of a link agree on, and the bounds of ports and sequence
-- numbers.
use thekvm.Prelude.{
  ℕ, ◌+◌, ◌^◌, ◌<◌, ◌≤◌, ◌≡◌, ◌≢◌, ◌⊎◌, inl, inr, refl, true, false, List, [], ◌∷◌, ◌++◌,
  if◌then◌else◌, arith,
}
use thekvm.Prelude.Text.{Text, text_leb, utf8, codes, trim, to_ascii_lowercase}
use thekvm.Wire.Bytes.{be_bytes}
use thekvm.Udp.{udp_port, key_material, derive_udp_key, next_seq, SessionKey, discovery_port}

-- The order is total, and two texts each at most the other are the same.
text_leb_order :
    (a b : Text)
    → ((text_leb a b ≡ true) × (text_leb b a ≡ true) × (a ≡ b))
      ⊎ (((text_leb a b ≡ true) × (text_leb b a ≡ false))
          ⊎ ((text_leb a b ≡ false) × (text_leb b a ≡ true)))
unfolding text_leb
text_leb_order [] [] = inl (refl, refl, refl)
text_leb_order [] (y ∷ ys) = inr (inl (refl, refl))
text_leb_order (x ∷ xs) [] = inr (inr (refl, refl))
text_leb_order (x ∷ xs) (y ∷ ys) = elim (text_leb_order xs ys) [
  | inl h ↦ ground (arith, h)
  | inr h ↦ ground (arith, h)
]

-- The smaller of two texts, then the larger.
unfoldable pub ordered : {A : Type 0} → Text → Text → (Text → Text → A) → A
unfolding text_leb
ordered a b f = f (if text_leb a b then a else b) (if text_leb a b then b else a)

pub ordered_comm : {A : Type 0} (a b : Text) (f : Text → Text → A) → ordered a b f ≡ ordered b a f
unfolding ordered
ordered_comm a b f = elim (text_leb_order a b) [
  | inl (ab, ba, e) ↦ rw (ab, ba, e) refl
  | inr (inl (ab, ba)) ↦ rw (ab, ba) refl
  | inr (inr (ab, ba)) ↦ rw (ab, ba) refl
]

-- Both ends of a link derive the same key: exchanging the two fingerprints changes nothing, for
-- every hash function.
pub derive_udp_key_comm :
    (sha256 : List ℕ → SessionKey) (a b : Text) (link_id : ℕ)
    → derive_udp_key sha256 a b link_id ≡ derive_udp_key sha256 b a link_id
unfolding derive_udp_key key_material ordered
derive_udp_key_comm sha256 a b link_id =
    ordered_comm (utf8 (to_ascii_lowercase (trim a))) (utf8 (to_ascii_lowercase (trim b)))
      (λ first second.
        sha256 (codes "thekvm-udp-v1" ++ (first ++ (0 ∷ (second ++ (0 ∷ be_bytes 8 link_id))))))

-- For every port, the UDP port is a 16-bit port outside the privileged range and is not the
-- discovery port; it is the next port, but for a port below 1023, for 42110 and for 65535 it can be
-- 42112.
pub udp_port_lem :
    (listen_port : ℕ)
    → listen_port < 2 ^ 16
    → (1024 ≤ udp_port listen_port)
      × (udp_port listen_port < 2 ^ 16)
      × (udp_port listen_port ≢ discovery_port)
      × ((udp_port listen_port ≡ listen_port + 1)
          ⊎ ((udp_port listen_port ≡ 42112)
              × ((listen_port < 1023) ⊎ ((listen_port ≡ 42110) ⊎ (listen_port ≡ 65535)))))
unfolding udp_port
udp_port_lem listen_port h = ground arith

-- The next number of a counter of 64 bits is never zero and has 64 bits; it is larger than the
-- counter, but after the largest number it is one.
pub next_seq_lem :
    (counter : ℕ)
    → counter < 2 ^ 64
    → (0 < next_seq counter)
      × (next_seq counter < 2 ^ 64)
      × ((counter < next_seq counter) ⊎ ((next_seq counter ≡ 1) × (counter + 1 ≡ 2 ^ 64)))
unfolding next_seq
next_seq_lem counter h = ground arith
