-- ===== src/Tests/UdpRuns.antt =====
-- Runs of the UDP transport: a toy cipher that marks the text with the first byte of the key, and a
-- message of 900 bytes in two fragments.
use thekvm.Prelude.{
  ℕ, ◌+◌, ◌<◌, ◌≡◌, refl, ==_refl, true, false, Option, none, some, List, [], ◌∷◌, ◌++◌, arith,
  length, if◌then◌else◌, any, map,
}
use thekvm.Prelude.Result.{ok}
use thekvm.Prelude.Text.{text_eq, codes}
use thekvm.Prelude.Slices.{take, drop, replicate}
use thekvm.Prelude.Dict.{get}
use thekvm.Udp.{SessionKey, kind_reliable}
use thekvm.Udp.Packet.{Cipher, encode_packet, decode_packet}
use thekvm.Udp.PacketTrip.{IsCipher, decode-encode_packet}
use thekvm.Udp.Reassembler.{feed, feeds, split_reliable, fragment}
use thekvm.Udp.Feeding.{IsHandled, feed-IsHandled}
use thekvm.Udp.Tally.{tallies, contains}
use thekvm.Udp.Delivery.{picks}
use thekvm.Udp.Reliable.{outcome_of, feeds-tallies, feeds-delivers, delivers}

abbrev mark : SessionKey → List ℕ
mark [] = replicate 16 0
mark (k ∷ key) = replicate 16 k

toy_decrypt : SessionKey → List ℕ → List ℕ → Option (List ℕ)
unfolding take drop text_eq
toy_decrypt key nonce bytes =
    if text_eq (take 16 bytes) (mark key) then some (drop 16 bytes) else none

abbrev toy : Cipher
toy = record { encrypt = λ key nonce text. mark key ++ text; decrypt = toy_decrypt }

toy_opens :
    (key : SessionKey) (nonce text : List ℕ) → toy_decrypt key nonce (mark key ++ text) ≡ some text
unfolding toy_decrypt take drop text_eq
toy_opens [] nonce text = refl
toy_opens (k ∷ key) nonce text = rw (==_refl k) refl

toy_grows : (key : SessionKey) (text : List ℕ) → length (mark key ++ text) ≡ length text + 16
toy_grows [] text = omega arith
toy_grows (k ∷ key) text = omega arith

toy-IsCipher : IsCipher toy
toy-IsCipher = record { opens = toy_opens; grows = λ key nonce text. toy_grows key text }

abbrev nonce : List ℕ
nonce = replicate 12 5

decode-encode_packet_example :
    (decode_packet toy
        ((1 ∷ []) ∷ ((2 ∷ []) ∷ []))
        (encode_packet toy nonce (2 ∷ []) kind_reliable 7 (codes "hi"))
      ≡ ok (record { key_index = 1; kind = kind_reliable; seq = 7; body = codes "hi" }))
    × (length (encode_packet toy nonce (2 ∷ []) kind_reliable 7 (codes "hi")) ≡ 48)
unfolding toy_decrypt encode_packet
decode-encode_packet_example =
    decode-encode_packet toy toy-IsCipher ((1 ∷ []) ∷ []) [] (2 ∷ []) nonce kind_reliable 7
      (codes "hi") refl (omega arith) (omega arith) (refl, tt)

feed-IsHandled_example : IsHandled (feed [] (fragment 9 2 0 (codes "ab")))
feed-IsHandled_example = feed-IsHandled [] (fragment 9 2 0 (codes "ab")) (omega arith, tt)

abbrev message : List ℕ
message = replicate 900 7

abbrev parts : List (List ℕ)
parts = fragment 3 2 0 (replicate 896 7) ∷ (fragment 3 2 1 (replicate 4 7) ∷ [])

split_message : split_reliable 3 message ≡ ok parts
unfolding split_reliable take drop
split_message = refl

feeds-tallies_example :
    (feeds [] (picks parts (1 ∷ (1 ∷ (0 ∷ []))))).1
    ≡ map (outcome_of message) (tallies (false ∷ (false ∷ [])) (1 ∷ (1 ∷ (0 ∷ [])))).1
unfolding get
feeds-tallies_example =
    feeds-tallies 3 message parts [] (1 ∷ (1 ∷ (0 ∷ []))) (omega arith) split_message refl
      (omega arith) (omega arith, (omega arith, (omega arith, tt)))

every_part : (i : ℕ) → i < 2 → contains (1 ∷ (1 ∷ (0 ∷ []))) i ≡ true
every_part i h = ground arith

feeds-delivers_example :
    any (delivers message) (feeds [] (picks parts (1 ∷ (1 ∷ (0 ∷ []))))).1 ≡ true
unfolding get
feeds-delivers_example =
    feeds-delivers 3 message parts [] (1 ∷ (1 ∷ (0 ∷ []))) (omega arith) split_message refl
      (omega arith) (omega arith, (omega arith, (omega arith, tt))) every_part

abbrev one : ℕ
one = 1
