-- ===== src/Wire/Message.antt =====
-- kvm-protocol/src/wire.rs: the messages of the reliable stream and their validation. A string is its
-- code points, and its length is that of its UTF-8.
pub mod Acceptance
pub mod Frame
pub mod FrameTrip
use thekvm.Prelude.{
  ℕ, ◌+◌, ◌-◌, ◌*◌, ◌/◌, Bool, true, false, not, ◌&&◌, ◌||◌, Option, none, some, List, ltb, ◌==◌,
  if◌then◌else◌, length, any, all,
}
use thekvm.Prelude.Int.{ℤ}
use thekvm.Prelude.Result.{Result, ok, err, ◌>>=◌, ◌>>◌, fail_if}
use thekvm.Prelude.Text.{Text, trim, byte_length, is_control, is_digit, is_hexdigit, is_empty}
use thekvm.Config.{Mode}
use thekvm.Event.{InputPacket, InputState}

abbrev pub max_frame_size : ℕ
max_frame_size = 65536

abbrev pub max_node_name_bytes : ℕ
max_node_name_bytes = 128

abbrev pub max_reject_reason_bytes : ℕ
max_reject_reason_bytes = 1024

abbrev pub max_clipboard_text_bytes : ℕ
max_clipboard_text_bytes = 49152

abbrev pub max_clipboard_update_bytes : ℕ
max_clipboard_update_bytes = 16777216

pub record ScreenGeometry : Type 0 where
  pub screen_id : ℕ
  pub width : ℕ
  pub height : ℕ

pub record Hello : Type 0 where
  pub node_name : Text
  pub mode : Mode
  pub lock_screen_requested : Bool
  pub clipboard_enabled : Bool
  pub screen_geometry : Option ScreenGeometry
  pub smooth_scroll : Bool
  pub pinch_zoom : Bool
  pub motion_lane : Bool
  pub link_id : Option ℕ
  pub udp_motion : Bool

pub record PairRequest : Type 0 where
  pub node_name : Text
  pub fingerprint_hex : Text
  pub pairing_code : Option Text

pub record PairChallenge : Type 0 where
  pub node_name : Text
  pub fingerprint_hex : Text
  pub verification_code : Option Text
  pub pre_approved : Bool

pub record Accepted : Type 0 where
  pub lock_screen_enabled : Bool
  pub clipboard_enabled : Bool
  pub screen_geometry : Option ScreenGeometry
  pub smooth_scroll : Bool
  pub pinch_zoom : Bool
  pub motion_lane : Bool
  pub udp_motion : Bool

pub record ClipboardImage : Type 0 where
  pub revision : ℕ
  pub width : ℕ
  pub height : ℕ
  pub png_base64 : Text

pub record ClipboardImageStart : Type 0 where
  pub revision : ℕ
  pub total_bytes : ℕ
  pub chunks : ℕ
  pub width : ℕ
  pub height : ℕ

pub record PointerHandoff : Type 0 where
  pub screen_id : ℕ
  pub target_name : Text
  pub x : ℕ
  pub y : ℕ
  pub screen_geometry : Option ScreenGeometry

pub record HandoffRequest : Type 0 where
  pub screen_id : ℕ
  pub target_name : Text
  pub x : ℕ
  pub y : ℕ
  pub dx : ℤ
  pub dy : ℤ
  pub screen_geometry : Option ScreenGeometry

pub data WireMessage : Type 0 where
  hello : Hello → WireMessage
  pair_request : PairRequest → WireMessage
  pair_challenge : PairChallenge → WireMessage
  pair_confirm : (server_fingerprint_hex : Text) → WireMessage
  accepted : Accepted → WireMessage
  input : InputPacket → WireMessage
  state_sync : InputState → WireMessage
  clipboard_text : (revision : ℕ) (text : Text) → WireMessage
  clipboard_image : ClipboardImage → WireMessage
  clipboard_start : (revision total_bytes chunks : ℕ) → WireMessage
  clipboard_image_start : ClipboardImageStart → WireMessage
  clipboard_chunk : (revision index : ℕ) (bytes : Text) → WireMessage
  clipboard_image_chunk : (revision index : ℕ) (bytes : Text) → WireMessage
  clipboard_end : (revision : ℕ) → WireMessage
  clipboard_image_end : (revision : ℕ) → WireMessage
  release_all : WireMessage
  link_ended : (link_id : Option ℕ) → WireMessage
  ping pong : (nonce : ℕ) → WireMessage
  pointer_handoff : PointerHandoff → WireMessage
  handoff_request : HandoffRequest → WireMessage
  reject : (reason : Text) → WireMessage

-- The errors, one for each message of the source.
pub data MessageError : Type 0 where
  bad_node_name bad_fingerprint bad_pairing_code bad_verification_code bad_reject_reason :
      MessageError
  empty_geometry oversized_geometry oversized_text oversized_image oversized_chunk : MessageError
  bad_transfer_header undercounted_chunks bad_image_header undercounted_image_chunks
        bad_image_dims :
      MessageError

abbrev pub Checked : Type 0
Checked = Result MessageError (Unit {0})

unfoldable pub validate_node_name : Text → Checked
unfolding trim byte_length is_control any
validate_node_name name =
    fail_if
      (is_empty (trim name) || ltb max_node_name_bytes (byte_length name) || any is_control name)
      bad_node_name

-- The bytes of the source are those of the UTF-8: one that is not ASCII is no digit.
unfoldable pub validate_fingerprint : Text → Checked
unfolding byte_length is_hexdigit all
validate_fingerprint fingerprint =
    fail_if (not (byte_length fingerprint == 64) || not (all is_hexdigit fingerprint))
      bad_fingerprint

unfoldable pub validate_image_dims : ℕ → ℕ → Checked
validate_image_dims width height =
    fail_if (width == 0 || height == 0 || ltb 16384 width || ltb 16384 height) bad_image_dims

unfoldable pub check_pairing_code : Option Text → Checked
unfolding byte_length is_control any
check_pairing_code none = ok tt
check_pairing_code (some code) =
    fail_if (ltb 16 (byte_length code) || any is_control code) bad_pairing_code

unfoldable pub check_verification_code : Option Text → Checked
unfolding byte_length is_digit all
check_verification_code none = ok tt
check_verification_code (some code) =
    fail_if (not (byte_length code == 6) || not (all is_digit code)) bad_verification_code

-- The first part: names, fingerprints and codes, with the geometry that the message carries.
unfoldable pub check_names : WireMessage → Result MessageError (Option ScreenGeometry)
unfolding validate_node_name validate_fingerprint check_pairing_code check_verification_code
    byte_length is_control any
check_names (hello h) = validate_node_name h.node_name >> ok h.screen_geometry
check_names (accepted a) = ok a.screen_geometry
check_names (pointer_handoff h) = ok h.screen_geometry
check_names (handoff_request h) = ok h.screen_geometry
check_names (pair_request r) =
    validate_node_name r.node_name
    >> validate_fingerprint r.fingerprint_hex
    >> check_pairing_code r.pairing_code
    >> ok none
check_names (pair_challenge c) =
    validate_node_name c.node_name
    >> validate_fingerprint c.fingerprint_hex
    >> check_verification_code c.verification_code
    >> ok none
check_names (pair_confirm fingerprint) = validate_fingerprint fingerprint >> ok none
check_names (reject reason) =
    fail_if (ltb max_reject_reason_bytes (byte_length reason) || any is_control reason)
      bad_reject_reason
    >> ok none
check_names _ = ok none

unfoldable pub check_geometry : Option ScreenGeometry → Checked
check_geometry none = ok tt
check_geometry (some g) =
    fail_if (g.width == 0 || g.height == 0) empty_geometry
    >> fail_if (ltb 1_000_000 g.width || ltb 1_000_000 g.height) oversized_geometry

abbrev pub min_chunks : ℕ → ℕ
min_chunks total = (total + (max_clipboard_text_bytes - 1)) / max_clipboard_text_bytes

-- The last part: the sizes of the clipboard messages.
unfoldable pub check_clipboard : WireMessage → Checked
unfolding validate_image_dims byte_length
check_clipboard (clipboard_text revision text) =
    fail_if (ltb max_clipboard_text_bytes (byte_length text)) oversized_text
check_clipboard (clipboard_image i) =
    fail_if (ltb max_clipboard_text_bytes (byte_length i.png_base64)) oversized_image
    >> validate_image_dims i.width i.height
check_clipboard (clipboard_chunk revision index bytes) =
    fail_if (ltb max_clipboard_text_bytes (byte_length bytes)) oversized_chunk
check_clipboard (clipboard_image_chunk revision index bytes) =
    fail_if (ltb max_clipboard_text_bytes (byte_length bytes)) oversized_chunk
check_clipboard (clipboard_start revision total chunks) =
    fail_if (ltb max_clipboard_update_bytes total || chunks == 0) bad_transfer_header
    >> fail_if (ltb chunks (min_chunks total)) undercounted_chunks
check_clipboard (clipboard_image_start s) =
    fail_if (ltb max_clipboard_update_bytes s.total_bytes || s.chunks == 0) bad_image_header
    >> validate_image_dims s.width s.height
    >> fail_if (ltb s.chunks (min_chunks s.total_bytes)) undercounted_image_chunks
check_clipboard _ = ok tt

unfoldable pub validate_message : WireMessage → Checked
unfolding check_names check_geometry check_clipboard
validate_message message =
    check_names message >>= λ geometry. check_geometry geometry >> check_clipboard message
