-- ===== src/Pairing.antt =====
-- kvm-protocol/src/pairing.rs: the book of trusted peers, with its file, and the pairing codes.
-- serde_json's coding of the file and whether a write reaches the disk are arguments.
pub mod Book
pub mod Updates
pub mod Trust
pub mod Restart
pub mod Codes
pub mod Hex
pub mod Padded
use thekvm.Prelude.{
  ℕ, ◌+◌, ◌≡◌, Bool, true, false, not, ◌&&◌, ◌||◌, Option, none, some, List, [], ◌∷◌, ◌++◌, ltb,
  leb, ◌==◌, if◌then◌else◌, length, any, all, is_some, is_none,
}
use thekvm.Config.{max_device_name_bytes}
use thekvm.Prelude.Result.{Result, ok, err, ◌>>=◌, ◌>>◌, fail_if}
use thekvm.Prelude.Text.{
  Text, text_eq, trim, to_ascii_lowercase, is_control, is_hexdigit, is_empty, byte_length,
}

abbrev pub max_trusted_peers : ℕ
max_trusted_peers = 256

abbrev pub max_peer_address_bytes : ℕ
max_peer_address_bytes = 256

pub data PairingError : Type 0 where
  bad_peer_name bad_peer_fingerprint bad_peer_address too_many_peers duplicate_peers : PairingError
  unreadable_book unwritten_book : PairingError

pub record Peer : Type 0 where
  pub name : Text
  pub fingerprint_hex : Text
  pub address : Option Text

-- `PeerBook`, and the bytes of its file.
pub record PeerBook : Type 0 where
  pub peers : List Peer
  pub file : Option (List ℕ)

abbrev pub trim_option : Option Text → Option Text
trim_option none = none
trim_option (some s) = some (trim s)

-- `fingerprint_hex.trim().to_ascii_lowercase()`
unfoldable pub wanted : Text → Text
wanted fingerprint = to_ascii_lowercase (trim fingerprint)

abbrev pub has_fingerprint : Text → Peer → Bool
has_fingerprint fingerprint p = text_eq p.fingerprint_hex fingerprint

unfoldable pub is_pinned : PeerBook → Text → Bool
unfolding any wanted
is_pinned book fingerprint = any (has_fingerprint (wanted fingerprint)) book.peers

unfoldable pub bad_address : Option Text → Bool
bad_address none = false
bad_address (some a) = is_empty a || ltb max_peer_address_bytes (byte_length a) || any is_control a

unfoldable pub bad_fingerprint : Text → Bool
bad_fingerprint fingerprint = not (length fingerprint == 64) || not (all is_hexdigit fingerprint)

unfoldable pub validate_peer_fields : Text → Text → Option Text → Result PairingError (Unit {0})
unfolding bad_address bad_fingerprint any all
validate_peer_fields name fingerprint address =
    fail_if (is_empty name || ltb max_device_name_bytes (byte_length name) || any is_control name)
      bad_peer_name
    >> fail_if (bad_fingerprint fingerprint) bad_peer_fingerprint
    >> fail_if (bad_address address) bad_peer_address

unfoldable pub normalized : Peer → Peer
normalized p = record {
  name = trim p.name;
  fingerprint_hex = to_ascii_lowercase p.fingerprint_hex;
  address = trim_option p.address;
}

abbrev pub check_peer : Peer → Result PairingError (Unit {0})
check_peer p = validate_peer_fields p.name p.fingerprint_hex p.address

-- The loop of `normalize_and_validate_peers`.
unfoldable pub normalize_all : List Peer → Result PairingError (List Peer)
normalize_all [] = ok []
normalize_all (p ∷ ps) =
    check_peer (normalized p) >> (normalize_all ps >>= λ qs. ok (normalized p ∷ qs))

-- A fingerprint that an earlier peer has.
unfoldable pub has_duplicates : List Text → List Peer → Bool
unfolding any
has_duplicates seen [] = false
has_duplicates seen (p ∷ ps) =
    any (text_eq p.fingerprint_hex) seen || has_duplicates (p.fingerprint_hex ∷ seen) ps

unfoldable pub normalize_and_validate_peers : List Peer → Result PairingError (List Peer)
normalize_and_validate_peers peers =
    fail_if (ltb max_trusted_peers (length peers)) too_many_peers
    >> (normalize_all peers >>= λ qs. (fail_if (has_duplicates [] qs) duplicate_peers >> ok qs))

module _ (from_json : List ℕ → Option (List Peer)) where
  unfoldable pub stored_peers : Option (List ℕ) → Result PairingError (List Peer)
  stored_peers none = ok []
  stored_peers (some bytes) = elim (from_json bytes) [
    | none ↦ err unreadable_book
    | some peers ↦ ok peers
  ]

  unfoldable pub load_or_create : Option (List ℕ) → Result PairingError PeerBook
  load_or_create file = stored_peers file >>= normalize_and_validate_peers >>= λ peers.
      ok (record { peers = peers; file = file })

unfoldable pub updated : Text → Option Text → Peer → Peer
updated name address p = record p {
  name = name;
  address = if is_some address then address else p.address;
}

unfoldable pub same_option : Option Text → Option Text → Bool
same_option none none = true
same_option (some a) (some b) = text_eq a b
same_option _ _ = false

-- The update changes the peer.
unfoldable pub is_changed : Text → Option Text → Peer → Bool
unfolding same_option
is_changed name address p =
    not (text_eq p.name name) || (is_some address && not (same_option p.address address))

-- The peer with the fingerprint, if there is one, takes the name and the address.
unfoldable pub update_peer : Text → Text → Option Text → List Peer → List Peer
unfolding updated
update_peer fingerprint name address [] = []
update_peer fingerprint name address (p ∷ ps) =
    if has_fingerprint fingerprint p
    then updated name address p ∷ ps
    else p ∷ update_peer fingerprint name address ps

unfoldable pub changes_peer : Text → Text → Option Text → List Peer → Bool
unfolding is_changed
changes_peer fingerprint name address [] = false
changes_peer fingerprint name address (p ∷ ps) =
    if has_fingerprint fingerprint p
    then is_changed name address p
    else changes_peer fingerprint name address ps

unfoldable pub without : Text → List Peer → List Peer
without fingerprint [] = []
without fingerprint (p ∷ ps) =
    let rest = without fingerprint ps in if has_fingerprint fingerprint p then rest else p ∷ rest

unfoldable pub removed :
    PeerBook × Result PairingError (Unit {0}) → PeerBook × Result PairingError Bool
removed (book, ok u) = (book, ok true)
removed (book, err e) = (book, err e)

module _ (to_json : List Peer → List ℕ) where
  -- The book after the call, and its result; `writes` is whether the disk takes the file.
  unfoldable pub save : Bool → PeerBook → PeerBook × Result PairingError (Unit {0})
  save writes book = elim (normalize_and_validate_peers book.peers) [
    | err e ↦ (book, err e)
    | ok peers ↦
        if writes
        then (record book { file = some (to_json peers) }, ok tt)
        else (book, err unwritten_book)
  ]

  unfoldable pub pin_new : Bool → PeerBook → Peer → PeerBook × Result PairingError (Unit {0})
  pin_new writes book p =
      if leb max_trusted_peers (length book.peers)
      then (book, err too_many_peers)
      else save writes (record book { peers = book.peers ++ (p ∷ []) })

  unfoldable pub pin_again :
      Bool → PeerBook → Text → Text → Option Text → PeerBook × Result PairingError (Unit {0})
  pin_again writes book fingerprint name address =
      let next = record book { peers = update_peer fingerprint name address book.peers } in
      if changes_peer fingerprint name address book.peers then save writes next else (next, ok tt)

  unfoldable pub pin_with_address :
      Bool → PeerBook → Text → Text → Option Text → PeerBook × Result PairingError (Unit {0})
  pin_with_address writes book name fingerprint address =
      let p : Peer =
        normalized (record { name = name; fingerprint_hex = fingerprint; address = address }) in
      elim (check_peer p) [
        | err e ↦ (book, err e)
        | ok u ↦
            if is_pinned book p.fingerprint_hex
            then pin_again writes book p.fingerprint_hex p.name p.address
            else pin_new writes book p
      ]

  unfoldable pub pin : Bool → PeerBook → Text → Text → PeerBook × Result PairingError (Unit {0})
  pin writes book name fingerprint = pin_with_address writes book name fingerprint none

  unfoldable pub unpin : Bool → PeerBook → Text → PeerBook × Result PairingError Bool
  unpin writes book fingerprint =
      let left = without (to_ascii_lowercase fingerprint) book.peers in
      let next = record book { peers = left } in
      if length left == length book.peers then (next, ok false) else removed (save writes next)
