-- ===== src/Tests/PairingRuns.antt =====
-- Runs of pairing and of invites.
use thekvm.Prelude.{
  ℕ, ◌+◌, ◌/◌, ◌≤◌, ◌≡◌, ◌≢◌, ◌↔◌, refl, ap, length, true, false, none, some, List, [], ◌∷◌, ◌++◌,
  arith,
}
use thekvm.Prelude.Result.{ok}
use thekvm.Prelude.Slices.{replicate}
use thekvm.Prelude.{any, all}
use thekvm.Prelude.Text.{
  Text, codes, trim, to_ascii_lowercase, text_eq, trim_start, is_whitespace, lower, is_control,
  is_hexdigit, byte_length, utf8_width, utf8,
}
use thekvm.Pairing.{
  pin_new, is_pinned, normalized, validate_peer_fields, save, normalize_and_validate_peers,
  normalize_all, has_duplicates, bad_fingerprint, bad_address, stored_peers, Peer, PeerBook, wanted,
  load_or_create, pin_with_address, unpin, without, removed,
}
use thekvm.Pairing.Book.{IsBook}
use thekvm.Pairing.Trust.{IsPinning, pin_with_address-IsPinning}
use thekvm.Pairing.Restart.{
  IsRevoked, unpin-IsRevoked, load_or_create-IsBook, load_or_create-pin_with_address,
}
use thekvm.Pairing.Padded.{unpin_padded}
use thekvm.Pairing.Codes.{station_code_valid, window_code, station_code_valid_iff}
use thekvm.Pairing.Hex.{decode_pairs, pair_value, digit_of, hex_decode, decoded, cut_character}
use thekvm.Invite.{check_parts, build, parse, invite_scheme, hash_mark}
use thekvm.Invite.InviteTrip.{parse-build}

abbrev book_of : List Peer → PeerBook
book_of peers = record { peers = peers; file = none }

abbrev empty_book : PeerBook
empty_book = book_of []

-- A coding of books that have a byte for each peer.
abbrev tally_of : List Peer → List ℕ
tally_of [] = []
tally_of (p ∷ ps) = 1 ∷ tally_of ps

none_valid : IsBook empty_book.peers
none_valid = (omega arith, tt, tt)

abbrev upper_fingerprint : Text
upper_fingerprint = replicate 64 b'A'

abbrev lower_fingerprint : Text
lower_fingerprint = replicate 64 b'a'

abbrev office : Peer
office = record {
  name = codes "office";
  fingerprint_hex = lower_fingerprint;
  address = some (codes "10.0.0.2:4242");
}

pins_normalized :
    pin_with_address tally_of true empty_book
      (codes "  office ")
      upper_fingerprint
      (some (codes " 10.0.0.2:4242"))
    ≡ (record { peers = office ∷ []; file = some (1 ∷ []) }, ok tt)
unfolding pin_with_address pin_new is_pinned normalized validate_peer_fields save
    normalize_and_validate_peers normalize_all has_duplicates bad_fingerprint bad_address any all
    is_control is_hexdigit byte_length utf8_width text_eq wanted to_ascii_lowercase lower trim
    trim_start is_whitespace
pins_normalized = refl

load_or_create-pin_with_address_example :
    let next =
      (pin_with_address tally_of true empty_book
        (codes "office")
        lower_fingerprint
        (some (codes "10.0.0.2:4242"))).0 in
    load_or_create (λ bytes. some (office ∷ [])) next.file ≡ ok next
unfolding load_or_create stored_peers pin_with_address pin_new is_pinned normalized
    validate_peer_fields save normalize_and_validate_peers normalize_all has_duplicates
    bad_fingerprint bad_address any all is_control is_hexdigit byte_length utf8_width text_eq wanted
    to_ascii_lowercase lower trim trim_start is_whitespace
load_or_create-pin_with_address_example =
    load_or_create-pin_with_address (λ bytes. some (office ∷ [])) tally_of true none empty_book
      (codes "office") lower_fingerprint (some (codes "10.0.0.2:4242")) refl refl refl

pin_with_address-IsPinning_example :
    IsPinning tally_of empty_book lower_fingerprint
      (pin_with_address tally_of true empty_book (codes "office") lower_fingerprint none)
unfolding to_ascii_lowercase lower
pin_with_address-IsPinning_example =
    pin_with_address-IsPinning tally_of true empty_book (codes "office") lower_fingerprint none
      none_valid

abbrev office_book : PeerBook
office_book = record { peers = office ∷ []; file = some (1 ∷ []) }

office_valid : IsBook office_book.peers
unfolding load_or_create stored_peers save normalize_and_validate_peers normalize_all has_duplicates
    normalized validate_peer_fields bad_fingerprint bad_address any all is_control is_hexdigit
    byte_length utf8_width text_eq to_ascii_lowercase lower trim trim_start is_whitespace
office_valid =
    (load_or_create-IsBook (λ bytes. some (office ∷ [])) (some (1 ∷ [])) office_book refl).0

-- The fingerprint is in upper case, and in lower case in the book.
unpin-IsRevoked_example :
    IsRevoked tally_of office_book upper_fingerprint
      (unpin tally_of true office_book upper_fingerprint)
unfolding trim trim_start is_whitespace
unpin-IsRevoked_example =
    unpin-IsRevoked tally_of true office_book upper_fingerprint office_valid refl

abbrev padded_fingerprint : Text
padded_fingerprint = b' ' ∷ upper_fingerprint

shorter_trimmed : trim padded_fingerprint ≢ padded_fingerprint
unfolding trim trim_start is_whitespace
shorter_trimmed e = let f = ap length e in absurd (omega arith)

padded_stays_trusted :
    (unpin tally_of true office_book padded_fingerprint ≡ (office_book, ok false))
    × (is_pinned office_book padded_fingerprint ≡ is_pinned office_book (trim padded_fingerprint))
padded_stays_trusted =
    unpin_padded tally_of true office_book padded_fingerprint office_valid shorter_trimmed

padded_is_pinned : is_pinned office_book padded_fingerprint ≡ true
unfolding is_pinned any wanted text_eq to_ascii_lowercase lower trim trim_start is_whitespace
padded_is_pinned = refl

unpin_revokes : (unpin tally_of true office_book upper_fingerprint).1 ≡ ok true
unfolding unpin without removed save normalize_and_validate_peers normalize_all has_duplicates
    normalized validate_peer_fields bad_fingerprint bad_address any all is_control is_hexdigit
    byte_length utf8_width text_eq to_ascii_lowercase lower trim trim_start is_whitespace
unpin_revokes = refl

-- A stand-in for the hash function.
abbrev thirty_two : List ℕ → List ℕ
thirty_two bytes = replicate 32 7

station_code_valid_iff_example :
    (station_code_valid thirty_two lower_fingerprint (codes " 123456 ") 1000000 ≡ true) ↔ (
      (window : ℕ) × (window ≤ 1000000 / 1800 + 1)
      × (1000000 / 1800 ≤ window + 1)
      × (window_code thirty_two lower_fingerprint window ≡ trim (codes " 123456 ")))
station_code_valid_iff_example =
    station_code_valid_iff thirty_two lower_fingerprint (codes " 123456 ") 1000000 (omega arith)

plus_sign_is_read : hex_decode (codes "+f") ≡ decoded (15 ∷ [])
unfolding hex_decode utf8 trim trim_start is_whitespace decode_pairs pair_value digit_of
plus_sign_is_read = refl

accent_is_cut : hex_decode (b'a' ∷ (0xe9 ∷ (b'1' ∷ []))) ≡ cut_character
unfolding hex_decode utf8 trim trim_start is_whitespace decode_pairs
accent_is_cut = refl

parse-build_example :
    parse (invite_scheme ++ (codes "10.0.0.2:4242" ++ (hash_mark ∷ lower_fingerprint)))
    ≡ ok (codes "10.0.0.2:4242", lower_fingerprint)
unfolding build check_parts bad_fingerprint wanted to_ascii_lowercase trim trim_start is_whitespace
    all is_hexdigit lower any is_control
parse-build_example =
    parse-build (codes " 10.0.0.2:4242") upper_fingerprint
      (invite_scheme ++ (codes "10.0.0.2:4242" ++ (hash_mark ∷ lower_fingerprint))) refl
