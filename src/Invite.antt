-- ===== src/Invite.antt =====
-- kvm-protocol/src/invite.rs: an invite as text, and back.
-- The scheme is ASCII, so the bytes that the source cuts off are its characters.
pub mod InviteTrip
use thekvm.Prelude.{
  ℕ, ◌<◌, ◌≡◌, Bool, true, false, not, ◌&&◌, ◌||◌, Option, none, some, List, [], ◌∷◌, ◌++◌, ltb,
  ◌==◌, if◌then◌else◌, length, any, all,
}
use thekvm.Prelude.Result.{Result, ok, err, ◌>>=◌, ◌>>◌, fail_if, ok_or}
use thekvm.Prelude.Slices.{drop}
use thekvm.Prelude.Text.{Text, codes, trim, to_ascii_lowercase, is_control}
use thekvm.Config.{starts_with}
use thekvm.Pairing.{wanted, bad_fingerprint}
use thekvm.Pairing.Codes.{verification_code}

abbrev pub invite_scheme : Text
invite_scheme = codes "thekvm://v1/"

abbrev pub short_scheme : Text
short_scheme = codes "thekvm://"

abbrev pub hash_mark : ℕ
hash_mark = 35

pub data InviteError : Type 0 where
  no_fingerprint bad_invite_fingerprint control_in_address : InviteError

-- `str::rsplit_once`
unfoldable pub rsplit_once : ℕ → Text → Option (Text × Text)
rsplit_once mark [] = none
rsplit_once mark (c ∷ s) = elim (rsplit_once mark s) [
  | some (a, b) ↦ some (c ∷ a, b)
  | none ↦ if c == mark then some ([], s) else none
]

-- What follows the scheme, in the spelling of the text.
unfoldable pub body_of : Text → Text
unfolding starts_with
body_of trimmed =
    let lowered = to_ascii_lowercase trimmed in
    if starts_with lowered invite_scheme
    then drop 12 trimmed
    else if starts_with lowered short_scheme
    then drop 9 trimmed
    else trimmed

-- The checks that `parse` and `build` share.
unfoldable pub check_parts : Text → Text → Result InviteError (Unit {0})
check_parts address fingerprint =
    fail_if (bad_fingerprint fingerprint) bad_invite_fingerprint
    >> fail_if (any is_control address) control_in_address

unfoldable pub parse_body : Text → Result InviteError (Text × Text)
parse_body body = ok_or (rsplit_once hash_mark body) no_fingerprint >>= λ (r : Text × Text).
    (check_parts (trim r.0) (wanted r.1) >> ok (trim r.0, wanted r.1))

unfoldable pub parse : Text → Result InviteError (Text × Text)
parse text = parse_body (body_of (trim text))

unfoldable pub build : Text → Text → Result InviteError Text
build address fingerprint_hex =
    check_parts address (wanted fingerprint_hex)
    >> ok (invite_scheme ++ (trim address ++ (hash_mark ∷ wanted fingerprint_hex)))

unfoldable pub describe : (List ℕ → List ℕ) → Text → Text → Text → Result InviteError (Text × Text)
describe sha256 address fingerprint_hex peer_fingerprint_hex =
    build address fingerprint_hex >>= λ invite.
    ok (invite, verification_code sha256 fingerprint_hex peer_fingerprint_hex)
