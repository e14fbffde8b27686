-- ===== src/Wire/Message/Acceptance.antt =====
-- kvm-protocol/src/wire.rs: which messages the validation accepts, told without its tests.
use thekvm.Prelude.{
  ℕ, ◌*◌, ◌<◌, ◌≤◌, ◌≡◌, ◌↔◌, inl, inr, refl, true, false, ◌||◌, Option, none, some, ltb, ◌==◌, any,
  All, any-All, All-any, arith,
}
use thekvm.Prelude.Result.{Result, ok, ◌>>◌, fail_if}
use thekvm.Prelude.Text.{Text, trim, byte_length, is_control, is_digit, is_hexdigit, is_empty}
use thekvm.Wire.Message.{
  WireMessage, hello, pair_request, pair_challenge, pair_confirm, accepted, clipboard_text,
  clipboard_image, clipboard_start, clipboard_image_start, clipboard_chunk, clipboard_image_chunk,
  pointer_handoff, handoff_request, reject, ScreenGeometry, MessageError, bad_node_name,
  bad_fingerprint, bad_pairing_code, bad_verification_code, bad_reject_reason, empty_geometry,
  oversized_geometry, oversized_text, oversized_image, oversized_chunk, bad_transfer_header,
  undercounted_chunks, bad_image_header, undercounted_image_chunks, bad_image_dims,
  validate_message, check_names, check_geometry, check_clipboard, validate_node_name,
  validate_fingerprint, validate_image_dims, check_pairing_code, check_verification_code,
  min_chunks, input, state_sync, clipboard_end, clipboard_image_end, release_all, link_ended, ping,
  pong,
}
use thekvm.Prelude.Deciding.{
  Decides, fail_if-Decides, seq-Decides, ok-Decides, bind-Decides, Decides-map, before, three,
  all-All, All-all,
}

-- A name that is not blank, of at most 128 bytes, without control characters.
abbrev IsName : Text → Type 0
IsName name =
    (is_empty (trim name) ≡ false) × (byte_length name ≤ 128) × All (λ c. is_control c ≡ false) name

-- 64 hexadecimal digits.
abbrev IsFingerprint : Text → Type 0
IsFingerprint fingerprint =
    (byte_length fingerprint ≡ 64) × All (λ c. is_hexdigit c ≡ true) fingerprint

abbrev IsPairingCode : Option Text → Type 0
IsPairingCode none = Unit
IsPairingCode (some code) = (byte_length code ≤ 16) × All (λ c. is_control c ≡ false) code

abbrev IsVerificationCode : Option Text → Type 0
IsVerificationCode none = Unit
IsVerificationCode (some code) = (byte_length code ≡ 6) × All (λ c. is_digit c ≡ true) code

abbrev IsReason : Text → Type 0
IsReason reason = (byte_length reason ≤ 1024) × All (λ c. is_control c ≡ false) reason

abbrev IsGeometry : Option ScreenGeometry → Type 0
IsGeometry none = Unit
IsGeometry (some g) =
    (0 < g.width) × (0 < g.height) × (g.width ≤ 1_000_000) × (g.height ≤ 1_000_000)

abbrev AreDims : ℕ → ℕ → Type 0
AreDims width height = (0 < width) × (0 < height) × (width ≤ 16384) × (height ≤ 16384)

-- At most 16 MiB in at least one chunk, the chunks of at most 48 KiB covering the total.
abbrev IsHeader : ℕ → ℕ → Type 0
IsHeader total chunks = (total ≤ 16777216) × (0 < chunks) × (total ≤ chunks * 49152)

-- What a message carries obeys these bounds.
abbrev pub IsAcceptable : WireMessage → Type 0
IsAcceptable (hello h) = IsName h.node_name × IsGeometry h.screen_geometry
IsAcceptable (pair_request r) =
    IsName r.node_name × IsFingerprint r.fingerprint_hex × IsPairingCode r.pairing_code
IsAcceptable (pair_challenge c) =
    IsName c.node_name × IsFingerprint c.fingerprint_hex × IsVerificationCode c.verification_code
IsAcceptable (pair_confirm fingerprint) = IsFingerprint fingerprint
IsAcceptable (accepted a) = IsGeometry a.screen_geometry
IsAcceptable (clipboard_text revision text) = byte_length text ≤ 49152
IsAcceptable (clipboard_image i) = (byte_length i.png_base64 ≤ 49152) × AreDims i.width i.height
IsAcceptable (clipboard_start revision total chunks) = IsHeader total chunks
IsAcceptable (clipboard_image_start s) = IsHeader s.total_bytes s.chunks × AreDims s.width s.height
IsAcceptable (clipboard_chunk revision index bytes) = byte_length bytes ≤ 49152
IsAcceptable (clipboard_image_chunk revision index bytes) = byte_length bytes ≤ 49152
IsAcceptable (pointer_handoff h) = IsGeometry h.screen_geometry
IsAcceptable (handoff_request h) = IsGeometry h.screen_geometry
IsAcceptable (reject reason) = IsReason reason
IsAcceptable _ = Unit

validate_node_name-Decides : (name : Text) → Decides (validate_node_name name) tt (IsName name)
unfolding validate_node_name
validate_node_name-Decides name =
    fail_if-Decides _ bad_node_name
      (λ h. (ground arith, ground arith, any-All is_control name (ground arith)))
      (λ (a, b, c). ground (arith, All-any is_control name c))

validate_fingerprint-Decides : (f : Text) → Decides (validate_fingerprint f) tt (IsFingerprint f)
unfolding validate_fingerprint
validate_fingerprint-Decides f =
    fail_if-Decides _ bad_fingerprint (λ h. (ground arith, all-All is_hexdigit f (ground arith)))
      (λ (a, b). ground (arith, All-all is_hexdigit f b))

check_pairing_code-Decides :
    (code : Option Text) → Decides (check_pairing_code code) tt (IsPairingCode code)
unfolding check_pairing_code
check_pairing_code-Decides none = ok-Decides tt
check_pairing_code-Decides (some code) =
    fail_if-Decides _ bad_pairing_code (λ h. (ground arith, any-All is_control code (ground arith)))
      (λ (a, b). ground (arith, All-any is_control code b))

check_verification_code-Decides :
    (code : Option Text) → Decides (check_verification_code code) tt (IsVerificationCode code)
unfolding check_verification_code
check_verification_code-Decides none = ok-Decides tt
check_verification_code-Decides (some code) =
    fail_if-Decides _ bad_verification_code
      (λ h. (ground arith, all-All is_digit code (ground arith)))
      (λ (a, b). ground (arith, All-all is_digit code b))

reason_lem :
    (reason : Text)
    → Decides
        (fail_if (ltb 1024 (byte_length reason) || any is_control reason) bad_reject_reason)
        tt
        (IsReason reason)
reason_lem reason =
    fail_if-Decides _ bad_reject_reason
      (λ h. (ground arith, any-All is_control reason (ground arith)))
      (λ (a, b). ground (arith, All-any is_control reason b))

not_empty :
    (w h : ℕ) (e : MessageError) → Decides (fail_if (w == 0 || h == 0) e) tt ((0 < w) × (0 < h))
not_empty w h e = fail_if-Decides _ e (λ k. (ground arith, ground arith)) (λ (a, b). ground arith)

not_oversized :
    (w h : ℕ) (e : MessageError)
    → Decides
        (fail_if (ltb 1_000_000 w || ltb 1_000_000 h) e)
        tt
        ((w ≤ 1_000_000) × (h ≤ 1_000_000))
not_oversized w h e =
    fail_if-Decides _ e (λ k. (ground arith, ground arith)) (λ (a, b). ground arith)

check_geometry-Decides : (g : Option ScreenGeometry) → Decides (check_geometry g) tt (IsGeometry g)
unfolding check_geometry
check_geometry-Decides none = ok-Decides tt
check_geometry-Decides (some g) =
    let d : Decides (check_geometry (some g)) tt
        (((0 < g.width) × (0 < g.height)) × ((g.width ≤ 1_000_000) × (g.height ≤ 1_000_000))) =
      seq-Decides _ _ tt (not_empty g.width g.height empty_geometry)
        (not_oversized g.width g.height oversized_geometry) in
    Decides-map (check_geometry (some g)) tt (λ ((a, b), (c, d)). (a, b, c, d))
      (λ (a, b, c, d). ((a, b), (c, d))) d

validate_image_dims-Decides :
    (width height : ℕ) → Decides (validate_image_dims width height) tt (AreDims width height)
unfolding validate_image_dims
validate_image_dims-Decides width height =
    fail_if-Decides _ bad_image_dims (λ h. (ground arith, ground arith, ground arith, ground arith))
      (λ (a, b, c, d). ground arith)

at_most : (n most : ℕ) (e : MessageError) → Decides (fail_if (ltb most n) e) tt (n ≤ most)
at_most n most e = fail_if-Decides _ e (λ h. ground arith) (λ h. ground arith)

covers :
    (total chunks : ℕ) (e : MessageError)
    → Decides (fail_if (ltb chunks (min_chunks total)) e) tt (total ≤ chunks * 49152)
covers total chunks e = fail_if-Decides _ e (λ h. ground arith) (λ h. ground arith)

transfer :
    (total chunks : ℕ) (e : MessageError)
    → Decides (fail_if (ltb 16777216 total || chunks == 0) e) tt ((total ≤ 16777216) × (0 < chunks))
transfer total chunks e =
    fail_if-Decides _ e (λ h. (ground arith, ground arith)) (λ (a, b). ground arith)

sizes_only :
    (m : WireMessage) {P : Type 0}
    → check_names m ≡ ok none
    → Decides (check_clipboard m) tt P
    → Decides (validate_message m) tt P
unfolding validate_message check_geometry
sizes_only m e d = rw e d

names_only :
    (m : WireMessage) {P : Type 0}
    → check_clipboard m ≡ ok tt
    → Decides (check_names m) none P
    → Decides (validate_message m) tt P
unfolding validate_message check_geometry
names_only m e (inl (f, p)) = inl (rw (f, e) refl, p)
names_only m e (inr (x, f, never)) = inr (x, rw f refl, never)

carries_only :
    (m : WireMessage) (g : Option ScreenGeometry)
    → check_names m ≡ ok g
    → check_clipboard m ≡ ok tt
    → Decides (validate_message m) tt (IsGeometry g)
unfolding validate_message
carries_only m g e f =
    rw (e, f)
      (Decides-map _ tt (λ (a, b). a) (λ a. (a, tt))
        (seq-Decides (check_geometry g) (ok tt) tt (check_geometry-Decides g) (ok-Decides tt)))

pair_names :
    {P : Type 0} (name fingerprint_hex : Text) (code : Result MessageError (Unit {0}))
    (g : Option ScreenGeometry)
    → Decides code tt P
    → Decides
        (validate_node_name name >> validate_fingerprint fingerprint_hex >> code >> ok g)
        g
        (IsName name × IsFingerprint fingerprint_hex × P)
pair_names name fingerprint_hex code g d = before _ g (
    three _ _ code tt (validate_node_name-Decides name)
      (validate_fingerprint-Decides fingerprint_hex) d)

accept_lem : (m : WireMessage) → Decides (validate_message m) tt (IsAcceptable m)
unfolding check_names check_clipboard validate_message
accept_lem (hello h) =
    bind-Decides _ _ h.screen_geometry
      (before _ h.screen_geometry (validate_node_name-Decides h.node_name))
      (before _ tt (check_geometry-Decides h.screen_geometry))
accept_lem (pair_request r) =
    names_only (pair_request r) refl
      (pair_names r.node_name r.fingerprint_hex _ none (check_pairing_code-Decides r.pairing_code))
accept_lem (pair_challenge c) = names_only (pair_challenge c) refl (
    pair_names c.node_name c.fingerprint_hex _ none
      (check_verification_code-Decides c.verification_code))
accept_lem (pair_confirm f) =
    names_only (pair_confirm f) refl (before _ none (validate_fingerprint-Decides f))
accept_lem (accepted a) = carries_only (accepted a) a.screen_geometry refl refl
accept_lem (clipboard_text revision text) =
    sizes_only (clipboard_text revision text) refl (at_most _ _ oversized_text)
accept_lem (clipboard_image i) = sizes_only (clipboard_image i) refl (
    seq-Decides _ _ tt (at_most _ _ oversized_image) (validate_image_dims-Decides i.width i.height))
accept_lem (clipboard_start revision total chunks) =
    sizes_only (clipboard_start revision total chunks) refl (
      Decides-map _ tt (λ ((a, b), c). (a, b, c)) (λ (a, b, c). ((a, b), c))
        (seq-Decides _ _ tt (transfer total chunks bad_transfer_header)
          (covers total chunks undercounted_chunks)))
accept_lem (clipboard_image_start s) = sizes_only (clipboard_image_start s) refl (
    Decides-map _ tt (λ ((a, b), c, d). ((a, b, d), c)) (λ ((a, b, d), c). ((a, b), c, d))
      (three _ _ _ tt (transfer s.total_bytes s.chunks bad_image_header)
        (validate_image_dims-Decides s.width s.height)
        (covers s.total_bytes s.chunks undercounted_image_chunks)))
accept_lem (clipboard_chunk revision index bytes) =
    sizes_only (clipboard_chunk revision index bytes) refl (at_most _ _ oversized_chunk)
accept_lem (clipboard_image_chunk revision index bytes) =
    sizes_only (clipboard_image_chunk revision index bytes) refl (at_most _ _ oversized_chunk)
accept_lem (pointer_handoff h) = carries_only (pointer_handoff h) h.screen_geometry refl refl
accept_lem (handoff_request h) = carries_only (handoff_request h) h.screen_geometry refl refl
accept_lem (reject reason) = names_only (reject reason) refl (before _ none (reason_lem reason))
accept_lem (input p) = inl (refl, tt)
accept_lem (state_sync p) = inl (refl, tt)
accept_lem (clipboard_end r) = inl (refl, tt)
accept_lem (clipboard_image_end r) = inl (refl, tt)
accept_lem release_all = inl (refl, tt)
accept_lem (link_ended l) = inl (refl, tt)
accept_lem (ping n) = inl (refl, tt)
accept_lem (pong n) = inl (refl, tt)

-- Validation accepts exactly the acceptable messages.
pub validate_message_iff : (m : WireMessage) → (validate_message m ≡ ok tt) ↔ IsAcceptable m
validate_message_iff m = elim (accept_lem m) [
  | inl (e, p) ↦ (λ h. p, λ h. e)
  | inr (e, f, never) ↦ (λ h. cc, λ p. absurd (never p))
]
