-- ===== src/Udp/PacketTrip.antt =====
-- kvm-protocol/src/udp.rs: sealing a packet and opening it with a ring of keys.
use thekvm.Prelude.{
  ℕ, suc, ◌+◌, ◌^◌, ◌<◌, ◌≤◌, ◌≡◌, refl, ap, sym, ◌∙◌, not, ◌&&◌, none, some, List, [], ◌∷◌, ◌++◌,
  length, arith, All, ltb, ◌==◌, ==_refl, if◌then◌else◌, length-append,
}
use mathlib.Core.Path.{subst}
use native.Mathlib.Nat.{mod-eq_of_lt}
use thekvm.Prelude.Int.{ℤ}
use thekvm.Prelude.Result.{Result, ok}
use thekvm.Prelude.Slices.{drop, slice, take, take-append, drop-append}
use thekvm.Prelude.Text.{text_eq}
use thekvm.Event.{mouse_move}
use thekvm.Wire.{
  DatagramInput, datagram_version, datagram_mouse_move, fields, encode_input_datagram,
  decode_input_datagram,
}
use thekvm.Wire.RoundTrip.{decode-encode_input_datagram}
use thekvm.Wire.Bytes.{be_bytes, read_be, read_be-be_bytes, IsInt, to_word}
use thekvm.Udp.{SessionKey, UdpError, udp_magic, header_len, kind_motion}
use thekvm.Udp.Packet.{
  Cipher, Packet, plaintext, encode_packet, decode_packet, open_plaintext, try_keys,
  encode_motion_packet, decode_motion_packet, decode_motion_body, motion_of,
}

-- What the cipher's documentation says: decryption with the same key and nonce undoes encryption,
-- and the tag takes 16 bytes.
pub record IsCipher (cipher : Cipher) : Type 0 where
  pub opens :
      (key : SessionKey) (nonce text : List ℕ)
      → cipher.decrypt key nonce (cipher.encrypt key nonce text) ≡ some text
  pub grows :
      (key : SessionKey) (nonce text : List ℕ)
      → length (cipher.encrypt key nonce text) ≡ length text + 16

add_zero : (n : ℕ) → 0 + n ≡ n
add_zero n = omega arith

abbrev opened : ℕ → ℕ → ℕ → List ℕ → Result UdpError Packet
opened index kind seq body = ok (record { key_index = index; kind = kind; seq = seq; body = body })

module _ (cipher : Cipher) where
  -- The key does not open the packet.
  abbrev pub Refuses : List ℕ → List ℕ → SessionKey → Type 0
  Refuses nonce packet key = cipher.decrypt key nonce (drop header_len packet) ≡ none

  same_open :
      (index kind seq seq' : ℕ) (body : List ℕ)
      → seq ≡ seq'
      → opened index kind seq body ≡ opened index kind seq' body
  same_open index kind seq seq' body e = cc

  known_kind :
      {A : Type 0} (kind : ℕ) (x y : A)
      → kind ≤ 2
      → (if not (kind == 0) && not (kind == 1) && not (kind == 2) then x else y) ≡ y
  known_kind kind x y h = ground arith

  long_enough : {A : Type 0} (n : ℕ) (x y : A) → 10 ≤ n → (if ltb n 10 then x else y) ≡ y
  long_enough n x y h = ground arith

  plaintext-long : (kind seq : ℕ) (body : List ℕ) → 10 ≤ length (plaintext kind seq body)
  unfolding be_bytes
  plaintext-long kind seq body = omega arith

  open_plaintext-plaintext :
      (index kind seq : ℕ) (body : List ℕ)
      → kind ≤ 2
      → seq < 2 ^ 64
      → open_plaintext cipher index (plaintext kind seq body) ≡ opened index kind seq body
  unfolding open_plaintext be_bytes slice drop
  open_plaintext-plaintext index kind seq body k s =
      long_enough (length (plaintext kind seq body)) _ _ (plaintext-long kind seq body)
      ∙ known_kind kind _ _ k
      ∙ same_open index kind (read_be (be_bytes 8 seq)) seq body
          (read_be-be_bytes 8 seq ∙ mod-eq_of_lt s)

  -- The first key that opens the ciphertext decides.
  try_keys_first :
      (front back : List SessionKey) (key : SessionKey) (index : ℕ)
      (nonce sealed_bytes text : List ℕ)
      → All (λ k. cipher.decrypt k nonce sealed_bytes ≡ none) front
      → cipher.decrypt key nonce sealed_bytes ≡ some text
      → try_keys cipher index (front ++ (key ∷ back)) nonce sealed_bytes
        ≡ open_plaintext cipher (index + length front) text
  unfolding try_keys
  try_keys_first [] back key index nonce sealed_bytes text h e =
      let z : index + 0 ≡ index = omega arith in rw (e, z) refl
  try_keys_first (k ∷ front) back key index nonce sealed_bytes text (h, hs) e =
      let z : suc index + length front ≡ index + suc (length front) = omega arith in
      rw (h, ← z) (try_keys_first front back key (suc index) nonce sealed_bytes text hs e)

  take_nonce : (nonce rest : List ℕ) → length nonce ≡ 12 → take 12 (nonce ++ rest) ≡ nonce
  take_nonce nonce rest l = ap (λ n. take n (nonce ++ rest)) (sym l) ∙ take-append nonce rest

  drop_nonce : (nonce rest : List ℕ) → length nonce ≡ 12 → drop 12 (nonce ++ rest) ≡ rest
  drop_nonce nonce rest l = ap (λ n. drop n (nonce ++ rest)) (sym l) ∙ drop-append nonce rest

  skip_short : {A : Type 0} (n : ℕ) (x y : A) → 46 ≤ n → (if ltb n 46 then x else y) ≡ y
  skip_short n x y h = ground arith

  sealed_long :
      (nonce c : List ℕ)
      → length nonce ≡ 12
      → 26 ≤ length c
      → 46 ≤ length (udp_magic ++ (nonce ++ c))
  sealed_long nonce c l h = omega (arith, length-append nonce c)

  -- A long packet under the right magic goes to the keys.
  decode_packet-keys :
      (keys : List SessionKey) (nonce c : List ℕ)
      → length nonce ≡ 12
      → 26 ≤ length c
      → decode_packet cipher keys (udp_magic ++ (nonce ++ c)) ≡ try_keys cipher 0 keys nonce c
  unfolding decode_packet text_eq slice drop take
  decode_packet-keys keys nonce c l h =
      skip_short (length (udp_magic ++ (nonce ++ c))) _ _ (sealed_long nonce c l h)
      ∙ rw (take_nonce nonce c l, drop_nonce nonce c l) refl

module _ (cipher : Cipher) (law : IsCipher cipher) where
  sealed : SessionKey → List ℕ → ℕ → ℕ → List ℕ → List ℕ
  sealed key nonce kind seq body = cipher.encrypt key nonce (plaintext kind seq body)

  packet-length :
      (key : SessionKey) (nonce : List ℕ) (kind seq : ℕ) (body : List ℕ)
      → length nonce ≡ 12
      → length (encode_packet cipher nonce key kind seq body) ≡ length body + 46
  unfolding encode_packet be_bytes
  packet-length key nonce kind seq body l = omega (
    arith,
    law.grows key nonce (plaintext kind seq body),
    length-append nonce (cipher.encrypt key nonce (plaintext kind seq body)),
  )

  sealed-length :
      (key : SessionKey) (nonce : List ℕ) (kind seq : ℕ) (body : List ℕ)
      → length (sealed key nonce kind seq body) ≡ length body + 26
  unfolding sealed be_bytes
  sealed-length key nonce kind seq body =
      omega (arith, law.grows key nonce (plaintext kind seq body))

  trip :
      (front back : List SessionKey) (key : SessionKey) (nonce : List ℕ) (kind seq : ℕ)
      (body : List ℕ)
      → length nonce ≡ 12
      → kind ≤ 2
      → seq < 2 ^ 64
      → All (λ k. cipher.decrypt k nonce (sealed key nonce kind seq body) ≡ none) front
      → decode_packet cipher (front ++ (key ∷ back)) (encode_packet cipher nonce key kind seq body)
        ≡ opened (length front) kind seq body
  unfolding encode_packet sealed
  trip front back key nonce kind seq body l k s h =
      decode_packet-keys cipher (front ++ (key ∷ back)) nonce (sealed key nonce kind seq body) l
        (omega (arith, sealed-length key nonce kind seq body))
      ∙ try_keys_first cipher front back key 0 nonce (sealed key nonce kind seq body)
          (plaintext kind seq body) h (law.opens key nonce (plaintext kind seq body))
      ∙ open_plaintext-plaintext cipher (0 + length front) kind seq body k s
      ∙ ap (λ n. opened n kind seq body) (add_zero (length front))

  drop-packet :
      (key : SessionKey) (nonce : List ℕ) (kind seq : ℕ) (body : List ℕ)
      → length nonce ≡ 12
      → drop header_len (encode_packet cipher nonce key kind seq body)
        ≡ sealed key nonce kind seq body
  unfolding encode_packet sealed drop
  drop-packet key nonce kind seq body l = drop_nonce cipher nonce (sealed key nonce kind seq body) l

  -- A packet is 46 bytes longer than its body; opened with a ring of keys that has the sender's key
  -- and before it only keys that do not open the packet, it gives back its kind (one of the three),
  -- its sequence number and its body, and the place of the key in the ring.
  pub decode-encode_packet :
      (front back : List SessionKey) (key : SessionKey) (nonce : List ℕ) (kind seq : ℕ)
      (body : List ℕ)
      → length nonce ≡ 12
      → kind ≤ 2
      → seq < 2 ^ 64
      → All (Refuses cipher nonce (encode_packet cipher nonce key kind seq body)) front
      → (decode_packet cipher (front ++ (key ∷ back)) (encode_packet cipher nonce key kind seq body)
          ≡ ok (record { key_index = length front; kind = kind; seq = seq; body = body }))
        × (length (encode_packet cipher nonce key kind seq body) ≡ length body + 46)
  decode-encode_packet front back key nonce kind seq body l k s h = (
    trip front back key nonce kind seq body l k s (
        subst (λ c. All (λ j. cipher.decrypt j nonce c ≡ none) front)
          (drop-packet key nonce kind seq body l) h),
    packet-length key nonce kind seq body l,
  )

  pub motion_body : (seq : ℕ) (dx dy : ℤ) → List ℕ
  unfolding be_bytes to_word
  motion_body seq dx dy =
      datagram_version ∷ (datagram_mouse_move ∷ (be_bytes 8 seq ++ fields 4 dx dy))

  -- The ciphertext of a motion.
  pub motion_sealed : SessionKey → List ℕ → ℕ → ℤ → ℤ → List ℕ
  unfolding motion_body
  motion_sealed key nonce seq dx dy = sealed key nonce kind_motion seq (motion_body seq dx dy)

  motion_body-decodes :
      (seq : ℕ) (dx dy : ℤ)
      → seq < 2 ^ 64
      → IsInt 4 dx
      → IsInt 4 dy
      → decode_input_datagram (motion_body seq dx dy)
        ≡ ok (record { sequence = seq; event = mouse_move dx dy })
  unfolding encode_input_datagram motion_body
  motion_body-decodes seq dx dy s a b =
      let input : DatagramInput = record { sequence = seq; event = mouse_move dx dy } in
      (decode-encode_input_datagram input (motion_body seq dx dy) s (a, b) refl).0

  decode_motion_body-ok :
      (index seq : ℕ) (dx dy : ℤ) (body : List ℕ)
      → decode_input_datagram body ≡ ok (record { sequence = seq; event = mouse_move dx dy })
      → decode_motion_body cipher
          (record { key_index = index; kind = kind_motion; seq = seq; body = body })
        ≡ ok (record { key_index = index; seq = seq; dx = dx; dy = dy })
  unfolding decode_motion_body motion_of
  decode_motion_body-ok index seq dx dy body e = rw (e, motion_of, ==_refl seq) refl

  -- A pointer motion whose fields fit 32 bits, sent under a sequence number of 64 bits, always makes
  -- a packet, of 64 bytes; opened with a ring of keys that has the sender's key and before it only
  -- keys that do not open the packet, it gives back the motion, the number and the key's place.
  pub decode-encode_motion_packet :
      (front back : List SessionKey) (key : SessionKey) (nonce : List ℕ) (seq : ℕ) (dx dy : ℤ)
      → length nonce ≡ 12
      → seq < 2 ^ 64
      → IsInt 4 dx
      → IsInt 4 dy
      → All (λ k. cipher.decrypt k nonce (motion_sealed key nonce seq dx dy) ≡ none) front
      → (packet : List ℕ) × (encode_motion_packet cipher nonce key seq dx dy ≡ ok packet)
        × (decode_motion_packet cipher (front ++ (key ∷ back)) packet
            ≡ ok (record { key_index = length front; seq = seq; dx = dx; dy = dy }))
        × (length packet ≡ 64)
  unfolding decode_motion_packet motion_sealed encode_motion_packet encode_input_datagram
      motion_body
  decode-encode_motion_packet front back key nonce seq dx dy l s a b h =
      let body = motion_body seq dx dy in
      (
        encode_packet cipher nonce key kind_motion seq body,
        refl,
        rw
            (
              decode_motion_packet,
              trip front back key nonce kind_motion seq body l (omega arith) s h,
            )
            (decode_motion_body-ok (length front) seq dx dy (motion_body seq dx dy)
              (motion_body-decodes seq dx dy s a b)),
        packet-length key nonce kind_motion seq body l,
      )
