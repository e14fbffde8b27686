-- ===== src/Udp.antt =====
-- kvm-protocol/src/udp.rs: the constants of the UDP transport, its port, its session keys and its
-- sequence numbers. Bytes are numbers below 256.
pub mod Packet
pub mod Reassembler
pub mod PacketTrip
pub mod Symmetry
pub mod Slots
pub mod Bounded
pub mod Feeding
pub mod Tally
pub mod Delivery
pub mod Reliable
use thekvm.Prelude.{ℕ, ◌+◌, ◌%◌, ◌^◌, max, ◌||◌, List, [], ◌∷◌, ◌++◌, ltb, ◌==◌, if◌then◌else◌, ◌<◌}
use thekvm.Prelude.Text.{Text, trim, to_ascii_lowercase, codes, text_leb, utf8}
use thekvm.Wire.Bytes.{be_bytes}

abbrev pub udp_magic : List ℕ
udp_magic = codes "THEKVMU1"

abbrev pub udp_version : ℕ
udp_version = 1

abbrev pub kind_reliable : ℕ
kind_reliable = 0

abbrev pub kind_motion : ℕ
kind_motion = 1

abbrev pub kind_ack : ℕ
kind_ack = 2

abbrev pub nonce_len : ℕ
nonce_len = 12

abbrev pub header_len : ℕ
header_len = 8 + nonce_len

abbrev pub tag_len : ℕ
tag_len = 16

abbrev pub max_udp_datagram : ℕ
max_udp_datagram = 1200

abbrev pub reliable_fragment_bytes : ℕ
reliable_fragment_bytes = 896

abbrev pub max_reliable_message : ℕ
max_reliable_message = 65536

abbrev pub max_fragments : ℕ
max_fragments = 128

abbrev pub discovery_port : ℕ
discovery_port = 42111

-- The errors, one for each message of the source.
pub data UdpError : Type 0 where
  datagram_too_short bad_magic decrypt_failed plaintext_too_short unsupported_udp_version
        unknown_packet_kind :
      UdpError
  not_a_motion_packet bad_motion_datagram motion_sequence_mismatch non_motion_event : UdpError
  payload_size_out_of_range too_many_fragments : UdpError
  fragment_too_short bad_fragment_header fragment_too_large too_many_assemblies count_mismatch
        missing_fragment message_too_large :
      UdpError

unfoldable pub udp_port : ℕ → ℕ
udp_port listen_port =
    let candidate = (listen_port + 1) % 2 ^ 16 in
    if candidate == discovery_port || ltb candidate 1024 then 42112 else candidate

-- A session key: 32 bytes.
abbrev pub SessionKey : Type 0
SessionKey = List ℕ

-- The bytes that the key of a link is the hash of.
unfoldable pub key_material : Text → Text → ℕ → List ℕ
unfolding utf8 text_leb be_bytes
key_material local_fingerprint peer_fingerprint link_id =
    let local = utf8 (to_ascii_lowercase (trim local_fingerprint)) in
    let peer = utf8 (to_ascii_lowercase (trim peer_fingerprint)) in
    let first = if text_leb local peer then local else peer in
    let second = if text_leb local peer then peer else local in
    codes "thekvm-udp-v1" ++ (first ++ (0 ∷ (second ++ (0 ∷ be_bytes 8 link_id))))

-- The hash function is SHA-256.
unfoldable pub derive_udp_key : (List ℕ → SessionKey) → Text → Text → ℕ → SessionKey
unfolding key_material
derive_udp_key sha256 local_fingerprint peer_fingerprint link_id =
    sha256 (key_material local_fingerprint peer_fingerprint link_id)

unfoldable pub next_seq : ℕ → ℕ
next_seq counter = max ((counter + 1) % 2 ^ 64) 1
