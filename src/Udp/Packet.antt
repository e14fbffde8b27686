-- ===== src/Udp/Packet.antt =====
-- kvm-protocol/src/udp.rs: sealed packets, and the packets of pointer motion. The cipher is the
-- crate's ChaCha20Poly1305: a parameter.
use thekvm.Prelude.{
  ℕ, suc, ◌+◌, not, ◌&&◌, Option, none, some, List, [], ◌∷◌, ◌++◌, ltb, ◌==◌, if◌then◌else◌, length,
}
use thekvm.Prelude.Int.{ℤ}
use thekvm.Prelude.Result.{Result, ok, err, ◌>>=◌}
use thekvm.Prelude.Slices.{drop, slice}
use thekvm.Prelude.Text.{text_eq}
use thekvm.Event.{mouse_move}
use thekvm.Wire.{encode_input_datagram, decode_input_datagram, DatagramInput}
use thekvm.Wire.Bytes.{be_bytes, read_be}
use thekvm.Udp.{
  SessionKey, UdpError, datagram_too_short, bad_magic, decrypt_failed, plaintext_too_short,
  unsupported_udp_version, unknown_packet_kind, not_a_motion_packet, bad_motion_datagram,
  motion_sequence_mismatch, non_motion_event, udp_magic, udp_version, kind_reliable, kind_motion,
  kind_ack, tag_len, header_len,
}

-- Encryption under a key and a nonce, and decryption, which can refuse.
pub record Cipher : Type 0 where
  pub encrypt : SessionKey → List ℕ → List ℕ → List ℕ
  pub decrypt : SessionKey → List ℕ → List ℕ → Option (List ℕ)

pub record Packet : Type 0 where
  pub key_index : ℕ
  pub kind : ℕ
  pub seq : ℕ
  pub body : List ℕ

pub record Motion : Type 0 where
  pub key_index : ℕ
  pub seq : ℕ
  pub dx : ℤ
  pub dy : ℤ

abbrev pub plaintext : ℕ → ℕ → List ℕ → List ℕ
plaintext kind seq body = udp_version ∷ (kind ∷ (be_bytes 8 seq ++ body))

module _ (cipher : Cipher) where
  -- The nonce is twelve random bytes.
  unfoldable pub encode_packet : List ℕ → SessionKey → ℕ → ℕ → List ℕ → List ℕ
  unfolding be_bytes
  encode_packet nonce key kind seq body =
      udp_magic ++ (nonce ++ cipher.encrypt key nonce (plaintext kind seq body))

  -- What the plaintext says, for the key that opened it.
  unfoldable pub open_plaintext : ℕ → List ℕ → Result UdpError Packet
  unfolding slice drop read_be
  open_plaintext index (version ∷ (kind ∷ rest)) =
      if ltb (length (version ∷ (kind ∷ rest))) 10
      then err plaintext_too_short
      else if not (version == udp_version)
      then err unsupported_udp_version
      else if not (kind == kind_reliable) && not (kind == kind_motion) && not (kind == kind_ack)
      then err unknown_packet_kind
      else ok (record {
        key_index = index;
        kind = kind;
        seq = read_be (slice 0 8 rest);
        body = drop 8 rest;
      })
  open_plaintext index _ = err plaintext_too_short

  -- The keys in their order, from one index on.
  unfoldable pub try_keys : ℕ → List SessionKey → List ℕ → List ℕ → Result UdpError Packet
  unfolding open_plaintext
  try_keys index [] nonce ciphertext = err decrypt_failed
  try_keys index (key ∷ keys) nonce ciphertext = elim (cipher.decrypt key nonce ciphertext) [
    | none ↦ try_keys (suc index) keys nonce ciphertext
    | some buffer ↦ open_plaintext index buffer
  ]

  unfoldable pub decode_packet : List SessionKey → List ℕ → Result UdpError Packet
  unfolding try_keys text_eq slice drop
  decode_packet keys datagram =
      if ltb (length datagram) (header_len + 1 + 1 + 8 + tag_len)
      then err datagram_too_short
      else if not (text_eq (slice 0 8 datagram) udp_magic)
      then err bad_magic
      else try_keys 0 keys (slice 8 header_len datagram) (drop header_len datagram)

  -- The codec takes every pointer motion.
  unfoldable pub encode_motion_packet : List ℕ → SessionKey → ℕ → ℤ → ℤ → Result UdpError (List ℕ)
  unfolding encode_packet encode_input_datagram
  encode_motion_packet nonce key seq dx dy =
      let input : DatagramInput = record { sequence = seq; event = mouse_move dx dy } in
      elim (encode_input_datagram input) [
        | err e ↦ err bad_motion_datagram
        | ok body ↦ ok (encode_packet nonce key kind_motion seq body)
      ]

  unfoldable pub motion_of : Packet → DatagramInput → Result UdpError Motion
  motion_of packet input = elim input.event [
    | mouse_move dx dy ↦
        if not (input.sequence == packet.seq)
        then err motion_sequence_mismatch
        else ok (record { key_index = packet.key_index; seq = packet.seq; dx = dx; dy = dy })
    | _ ↦ err non_motion_event
  ]

  unfoldable pub decode_motion_body : Packet → Result UdpError Motion
  unfolding motion_of decode_input_datagram
  decode_motion_body packet =
      if not (packet.kind == kind_motion)
      then err not_a_motion_packet
      else elim (decode_input_datagram packet.body) [
        | err e ↦ err bad_motion_datagram
        | ok input ↦ motion_of packet input
      ]

  unfoldable pub decode_motion_packet : List SessionKey → List ℕ → Result UdpError Motion
  unfolding decode_packet decode_motion_body
  decode_motion_packet keys datagram = decode_packet keys datagram >>= decode_motion_body
