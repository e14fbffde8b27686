-- ===== src/Pairing/Codes.antt =====
-- kvm-protocol/src/pairing.rs: the six-digit codes of a pairing. The hash function is SHA-256.
use thekvm.Prelude.{
  ℕ, ◌+◌, ◌-◌, ◌*◌, ◌/◌, ◌%◌, ◌^◌, ◌≤◌, ◌<◌, ◌≡◌, ◌↔◌, refl, sym, ap, ◌∙◌, Bool, true, false, not,
  ◌||◌, List, [], ◌∷◌, ◌++◌, ◌==◌, if◌then◌else◌, length, any, all, All, All-map, arith, Bool-cases,
  inl, inr,
}
use mathlib.Core.Path.{subst}
use native.Mathlib.Decide.{dec_lt}
use thekvm.Prelude.Text.{
  Text, codes, text_eq, text_eq→eq, text_eq_refl, text_leb, trim, utf8, is_digit, is_whitespace,
}
use thekvm.Prelude.Slices.{take}
use thekvm.Prelude.Deciding.{All-all}
use thekvm.Prelude.Trim.{black-IsTrimmed, trim_unchanged}
use thekvm.Wire.Bytes.{be_bytes, read_be}
use thekvm.Udp.Symmetry.{ordered, ordered_comm}
use thekvm.Pairing.{wanted}

abbrev pub pairing_code_rotation_secs : ℕ
pairing_code_rotation_secs = 1800

-- `format!("{:06}")` of a number below 1_000_000.
unfoldable pub six_digits : ℕ → Text
six_digits v =
    (48 + v / 100000 % 10)
    ∷ ((48 + v / 10000 % 10)
        ∷ ((48 + v / 1000 % 10)
            ∷ ((48 + v / 100 % 10) ∷ ((48 + v / 10 % 10) ∷ ((48 + v % 10) ∷ [])))))

module _ (sha256 : List ℕ → List ℕ) where
  -- The code of a window of 30 minutes.
  unfoldable pub window_code : Text → ℕ → Text
  window_code fingerprint window =
      let digest =
        sha256
          (codes "thekvm-pairing-code-v1" ++ (utf8 (wanted fingerprint) ++ be_bytes 8 window)) in
      six_digits (read_be (take 4 digest) % 1_000_000)

  unfoldable pub station_pairing_code : Text → ℕ → Text
  station_pairing_code fingerprint unix_secs =
      window_code fingerprint (unix_secs / pairing_code_rotation_secs)

  -- The code of the window, by its first second as a u64.
  unfoldable pub is_code_of : Text → Text → ℕ → Bool
  is_code_of fingerprint code window =
      text_eq (station_pairing_code fingerprint (window * pairing_code_rotation_secs % 2 ^ 64)) code

  unfoldable pub station_code_valid : Text → Text → ℕ → Bool
  station_code_valid fingerprint code unix_secs =
      let c = trim code in
      let current = unix_secs / pairing_code_rotation_secs in
      if not (length c == 6) || not (all is_digit c)
      then false
      else any (is_code_of fingerprint c) ((current - 1) ∷ (current ∷ ((current + 1) ∷ [])))

  -- The hash of both fingerprints, the smaller one first.
  unfoldable pub verification_code : Text → Text → Text
  verification_code local_fingerprint peer_fingerprint =
      let local = wanted local_fingerprint in
      let peer = wanted peer_fingerprint in
      let first = if text_leb local peer then local else peer in
      let second = if text_leb local peer then peer else local in
      let digest = sha256 (codes "THEKVM-PAIRING-CODE-V1" ++ (utf8 first ++ (0 ∷ utf8 second))) in
      six_digits (read_be (take 6 digest) % 1_000_000)

abbrev pub IsCode : Text → Type 0
IsCode c = (length c ≡ 6) × All (λ d. is_digit d ≡ true) c

six_digits-IsCode : (v : ℕ) → IsCode (six_digits v)
unfolding six_digits is_digit
six_digits-IsCode v = (
  refl,
  (
    ground arith,
    (ground arith, (ground arith, (ground arith, (ground arith, (ground arith, tt))))),
  ),
)

digit-black : (c : ℕ) → is_digit c ≡ true → is_whitespace c ≡ false
unfolding is_digit is_whitespace
digit-black c h = ground arith

-- A code is what it is when it is trimmed.
trim-code : (c : Text) → IsCode c → trim c ≡ c
trim-code c (size, digits) =
    trim_unchanged c (black-IsTrimmed c (All-map (λ d. digit-black d) c digits))

module _ (sha256 : List ℕ → List ℕ) where
  window_code-IsCode :
      (fingerprint : Text) (window : ℕ) → IsCode (window_code sha256 fingerprint window)
  unfolding window_code
  window_code-IsCode fingerprint window = six_digits-IsCode _

  -- The pairing code has six digits and is the same on both machines, however each spells the
  -- fingerprints, whichever one is its own.
  pub verification_code_comm :
      (a b a' b' : Text)
      → wanted a ≡ wanted a'
      → wanted b ≡ wanted b'
      → (verification_code sha256 a b ≡ verification_code sha256 b' a')
        × IsCode (verification_code sha256 a b)
  unfolding verification_code ordered
  verification_code_comm a b a' b' e f =
      let code = λ (first second : Text). six_digits (
        read_be
          (take 6 (sha256 (codes "THEKVM-PAIRING-CODE-V1" ++ (utf8 first ++ (0 ∷ utf8 second)))))
        % 1_000_000) in
      (rw (e, f) (ordered_comm (wanted a') (wanted b') code), six_digits-IsCode _)

  is_code_of_lem :
      (fingerprint code : Text) (window : ℕ)
      → window * 1800 < 2 ^ 64
      → is_code_of sha256 fingerprint code window
        ≡ text_eq (window_code sha256 fingerprint window) code
  unfolding is_code_of station_pairing_code
  is_code_of_lem fingerprint code window h =
      let same : window * 1800 % 2 ^ 64 / 1800 ≡ window = omega arith in rw same refl

  abbrev matches : Text → Text → ℕ → Bool
  matches fingerprint code window = text_eq (window_code sha256 fingerprint window) code

  -- The decision in terms of the three windows.
  station_code_windows :
      (fingerprint code : Text) (unix_secs : ℕ)
      → unix_secs + 3600 < 2 ^ 64
      → station_code_valid sha256 fingerprint code unix_secs ≡ (
          if not (length (trim code) == 6) || not (all is_digit (trim code))
          then false
          else matches fingerprint (trim code) (unix_secs / 1800 - 1)
            || (matches fingerprint (trim code) (unix_secs / 1800)
                || (matches fingerprint (trim code) (unix_secs / 1800 + 1) || false)))
  unfolding station_code_valid any
  station_code_windows fingerprint code unix_secs h =
      let now = unix_secs / 1800 in
      let before = is_code_of_lem fingerprint (trim code) (now - 1) (omega arith) in
      let at = is_code_of_lem fingerprint (trim code) now (omega arith) in
      let after = is_code_of_lem fingerprint (trim code) (now + 1) (omega arith) in
      rw (before, at, after) refl

  some_window :
      (fingerprint code : Text) (now : ℕ)
      → (matches fingerprint code (now - 1)
          || (matches fingerprint code now || (matches fingerprint code (now + 1) || false)))
        ≡ true
      → (window : ℕ) × (window ≤ now + 1)
        × (now ≤ window + 1)
        × (window_code sha256 fingerprint window ≡ code)
  some_window fingerprint code now e =
      let found = λ (w : ℕ). text_eq→eq (window_code sha256 fingerprint w) code in
      elim (Bool-cases (matches fingerprint code (now - 1))) [
        | inl f ↦ (now - 1, omega arith, omega arith, found (now - 1) f)
        | inr f ↦ elim (Bool-cases (matches fingerprint code now)) [
          | inl g ↦ (now, omega arith, omega arith, found now g)
          | inr g ↦ (now + 1, omega arith, omega arith, found (now + 1) (ground arith))
        ]
      ]

  near_window :
      (fingerprint code : Text) (now window : ℕ)
      → window ≤ now + 1
      → now ≤ window + 1
      → matches fingerprint code window ≡ true
      → (matches fingerprint code (now - 1)
          || (matches fingerprint code now || (matches fingerprint code (now + 1) || false)))
        ≡ true
  near_window fingerprint code now window lo hi e =
      let at = λ (w : ℕ) (same : window ≡ w). ap (matches fingerprint code) (sym same) ∙ e in
      elim (dec_lt window now) [
        | yes l ↦ let hit = at (now - 1) (omega arith) in ground arith
        | no l ↦ elim (dec_lt now window) [
          | yes m ↦ let hit = at (now + 1) (omega arith) in ground arith
          | no m ↦ let hit = at now (omega arith) in ground arith
        ]
      ]

  -- A code is accepted exactly when, trimmed, it is the code of the current window of 30 minutes or
  -- of one beside it.
  pub station_code_valid_iff :
      (fingerprint code : Text) (unix_secs : ℕ)
      → unix_secs + 3600 < 2 ^ 64
      → (station_code_valid sha256 fingerprint code unix_secs ≡ true) ↔ (
          (window : ℕ) × (window ≤ unix_secs / 1800 + 1)
          × (unix_secs / 1800 ≤ window + 1)
          × (window_code sha256 fingerprint window ≡ trim code))
  station_code_valid_iff fingerprint code unix_secs h =
      let c = trim code in
      let windows = station_code_windows fingerprint code unix_secs h in
      (
        λ e. elim (Bool-cases (not (length c == 6) || not (all is_digit c))) [
          | inl bad ↦ let f : false ≡ true = sym (windows ∙ rw bad refl) ∙ e in cc
          | inr good ↦
              some_window fingerprint c (unix_secs / 1800) (sym (windows ∙ rw good refl) ∙ e)
        ],
        λ (window, lo, hi, e).
            let (size, digits) = subst IsCode e (window_code-IsCode fingerprint window) in
            let plain : (not (length c == 6) || not (all is_digit c)) ≡ false =
              rw (size, All-all is_digit c digits) refl in
            let hit : matches fingerprint c window ≡ true = rw e (text_eq_refl c) in
            windows ∙ rw plain (near_window fingerprint c (unix_secs / 1800) window lo hi hit),
      )
