-- ===== src/Pairing/Book.antt =====
-- kvm-protocol/src/pairing.rs: which books of trusted peers are valid, and what validation makes.
use thekvm.Prelude.{
  ℕ, ◌≤◌, ◌≡◌, ◌≢◌, refl, ap, true, false, ◌||◌, Option, none, some, List, [], ◌∷◌, map, ltb,
  length, any, All, All-map, All-zip, Distinct, any-All, All-any, arith, Bool-cases, inl, inr,
}
use mathlib.Core.Path.{subst}
use thekvm.Prelude.Result.{ok, err, fail_if, Result-cases}
use thekvm.Prelude.Deciding.{Decides, fail_if-Decides, three, all-All, All-all}
use thekvm.Prelude.Text.{
  Text, text_eq, text_eq→eq, text_eq_refl, trim, is_control, is_hexdigit, is_empty, byte_length,
}
use thekvm.Prelude.Trim.{trim-trim, lowercase-lowercase}
use thekvm.Pairing.{
  PairingError, bad_peer_name, bad_peer_fingerprint, bad_peer_address, too_many_peers,
  duplicate_peers, Peer, trim_option, bad_address, bad_fingerprint, validate_peer_fields,
  normalized, check_peer, normalize_all, has_duplicates, normalize_and_validate_peers,
}

-- Not empty, within the limit of bytes, and without control characters.
abbrev pub IsLine : ℕ → Text → Type 0
IsLine limit s = (is_empty s ≡ false) × (byte_length s ≤ limit) × All (λ c. is_control c ≡ false) s

abbrev pub IsAddress : Option Text → Type 0
IsAddress none = Unit
IsAddress (some a) = IsLine 256 a

abbrev pub IsFingerprint : Text → Type 0
IsFingerprint s = (length s ≡ 64) × All (λ c. is_hexdigit c ≡ true) s

abbrev pub HasFields : Peer → Type 0
HasFields p = IsLine 128 p.name × IsFingerprint p.fingerprint_hex × IsAddress p.address

-- Valid fields, with the name and the address trimmed and the fingerprint in lower case.
abbrev pub IsPeer : Peer → Type 0
IsPeer p = (normalized p ≡ p) × HasFields p

-- At most 256 valid peers with fingerprints of their own.
abbrev pub IsBook : List Peer → Type 0
IsBook peers =
    (length peers ≤ 256) × All IsPeer peers × Distinct (λ (p : Peer). p.fingerprint_hex) peers

IsLine-Decides :
    (e : PairingError) (limit : ℕ) (s : Text)
    → Decides
        (fail_if (is_empty s || ltb limit (byte_length s) || any is_control s) e)
        tt
        (IsLine limit s)
IsLine-Decides e limit s =
    fail_if-Decides _ e (λ h. (ground arith, ground arith, any-All is_control s (ground arith)))
      (λ (a, b, c). let d = All-any is_control s c in ground arith)

IsAddress-Decides :
    (a : Option Text) → Decides (fail_if (bad_address a) bad_peer_address) tt (IsAddress a)
unfolding bad_address
IsAddress-Decides none = inl (refl, tt)
IsAddress-Decides (some a) = IsLine-Decides bad_peer_address 256 a

IsFingerprint-Decides :
    (s : Text) → Decides (fail_if (bad_fingerprint s) bad_peer_fingerprint) tt (IsFingerprint s)
unfolding bad_fingerprint
IsFingerprint-Decides s =
    fail_if-Decides _ bad_peer_fingerprint
      (λ h. (ground arith, all-All is_hexdigit s (ground arith)))
      (λ (a, b). let c = All-all is_hexdigit s b in ground arith)

pub check_peer-Decides : (p : Peer) → Decides (check_peer p) tt (HasFields p)
unfolding validate_peer_fields
check_peer-Decides p =
    three _ _ _ tt (IsLine-Decides bad_peer_name 128 p.name)
      (IsFingerprint-Decides p.fingerprint_hex) (IsAddress-Decides p.address)

trim_option-trim_option : (a : Option Text) → trim_option (trim_option a) ≡ trim_option a
trim_option-trim_option none = refl
trim_option-trim_option (some s) = ap some (trim-trim s)

pub normalized-normalized : (p : Peer) → normalized (normalized p) ≡ normalized p
unfolding normalized
normalized-normalized p =
    rw (trim-trim p.name, lowercase-lowercase p.fingerprint_hex, trim_option-trim_option p.address)
      refl

-- The name and the address of a normalized peer are trimmed.
pub normalized_trims :
    (p : Peer) → normalized p ≡ p → (trim p.name ≡ p.name) × (trim_option p.address ≡ p.address)
unfolding normalized
normalized_trims p e = (ap (λ (q : Peer). q.name) e, ap (λ (q : Peer). q.address) e)

checked_peer : (p : Peer) → check_peer p ≡ ok tt → HasFields p
checked_peer p e = elim (check_peer-Decides p) [ inl (f, h) ↦ h | inr (x, f, never) ↦ cc ]

pub fields_checked : (p : Peer) → HasFields p → check_peer p ≡ ok tt
fields_checked p h = elim (check_peer-Decides p) [
  | inl (f, g) ↦ f
  | inr (x, f, never) ↦ absurd (never h)
]

pub kept_peer : (p : Peer) → check_peer (normalized p) ≡ ok tt → IsPeer (normalized p)
kept_peer p e = (normalized-normalized p, checked_peer (normalized p) e)

-- What the loop makes of a list that it accepts.
normalize_all_lem :
    (ps qs : List Peer)
    → normalize_all ps ≡ ok qs
    → (qs ≡ map normalized ps) × All IsPeer qs × (length qs ≡ length ps)
unfolding normalize_all
normalize_all_lem [] qs e = ground arith
normalize_all_lem (p ∷ ps) qs e = elim (Result-cases (check_peer (normalized p))) [
  | inl (u, f) ↦ elim (Result-cases (normalize_all ps)) [
    | inl (rs, g) ↦
        let (same, valid, long) = normalize_all_lem ps rs g in
        let made : normalize_all (p ∷ ps) ≡ ok (normalized p ∷ rs) =
          rw (normalize_all, f, g) refl in
        let out : normalized p ∷ rs ≡ qs = cc in
        subst
          (λ (xs : List Peer).
            (xs ≡ map normalized (p ∷ ps)) × All IsPeer xs × (length xs ≡ length (p ∷ ps)))
          out (ap (λ (xs : List Peer). normalized p ∷ xs) same, (kept_peer p f, valid), omega arith)
    | inr (x, g) ↦ let made : normalize_all (p ∷ ps) ≡ err x = rw (normalize_all, f, g) refl in cc
  ]
  | inr (x, f) ↦ let made : normalize_all (p ∷ ps) ≡ err x = rw (normalize_all, f) refl in cc
]

valid_peers_kept : (ps : List Peer) → All IsPeer ps → normalize_all ps ≡ ok ps
unfolding normalize_all
valid_peers_kept [] h = refl
valid_peers_kept (p ∷ ps) ((same, fields), hs) =
    let checked : check_peer (normalized p) ≡ ok tt = rw same (fields_checked p fields) in
    rw (normalize_all, checked, valid_peers_kept ps hs, same) refl

pub apart→text_eq : (a b : Text) → a ≢ b → text_eq a b ≡ false
apart→text_eq a b h = elim (Bool-cases (text_eq a b)) [
  | inl e ↦ absurd (h (text_eq→eq a b e))
  | inr e ↦ e
]

pub text_eq→apart : (a b : Text) → text_eq a b ≡ false → a ≢ b
text_eq→apart a b e same =
    let f : text_eq a b ≡ true = subst (λ (x : Text). text_eq a x ≡ true) same (text_eq_refl a) in
    cc

has_duplicates-Distinct :
    (seen : List Text) (ps : List Peer)
    → has_duplicates seen ps ≡ false
    → All (λ p. any (text_eq p.fingerprint_hex) seen ≡ false) ps
      × Distinct (λ (p : Peer). p.fingerprint_hex) ps
unfolding has_duplicates any
has_duplicates-Distinct seen [] h = (tt, tt)
has_duplicates-Distinct seen (p ∷ ps) h =
    let (new, distinct) = has_duplicates-Distinct (p.fingerprint_hex ∷ seen) ps (ground arith) in
    (
      (ground arith, All-map (λ (q : Peer) e. ground arith) ps new),
      (
        All-map (λ (q : Peer) e. text_eq→apart q.fingerprint_hex p.fingerprint_hex (ground arith))
            ps new,
        distinct,
      ),
    )

Distinct-has_duplicates :
    (seen : List Text) (ps : List Peer)
    → All (λ p. any (text_eq p.fingerprint_hex) seen ≡ false) ps
    → Distinct (λ (p : Peer). p.fingerprint_hex) ps
    → has_duplicates seen ps ≡ false
unfolding has_duplicates any
Distinct-has_duplicates seen [] h d = refl
Distinct-has_duplicates seen (p ∷ ps) (h, hs) (d, ds) =
    let apart =
      All-zip {R = λ (q : Peer). any (text_eq q.fingerprint_hex) (p.fingerprint_hex ∷ seen) ≡ false}
        (λ q e n. let f = apart→text_eq q.fingerprint_hex p.fingerprint_hex n in ground arith) ps hs
        d in
    let rest = Distinct-has_duplicates (p.fingerprint_hex ∷ seen) ps apart ds in ground arith

nothing_seen : (ps : List Peer) → All (λ p. any (text_eq p.fingerprint_hex) [] ≡ false) ps
unfolding any
nothing_seen [] = tt
nothing_seen (p ∷ ps) = (refl, nothing_seen ps)

-- Validation gives back a valid book as it is.
pub valid_book_kept : (ps : List Peer) → IsBook ps → normalize_and_validate_peers ps ≡ ok ps
unfolding normalize_and_validate_peers
valid_book_kept ps (size, valid, distinct) =
    let short : ltb 256 (length ps) ≡ false = ground arith in
    rw (short, valid_peers_kept ps valid, Distinct-has_duplicates [] ps (nothing_seen ps) distinct)
      refl

-- What validation makes of the peers that it accepts is a valid book: each peer normalized.
pub normalize_and_validate_peers-IsBook :
    (ps qs : List Peer)
    → normalize_and_validate_peers ps ≡ ok qs
    → IsBook qs × (qs ≡ map normalized ps)
unfolding normalize_and_validate_peers
normalize_and_validate_peers-IsBook ps qs e = elim (Bool-cases (ltb 256 (length ps))) [
  | inl long ↦ let f : normalize_and_validate_peers ps ≡ err too_many_peers = rw long refl in cc
  | inr short ↦ elim (Result-cases (normalize_all ps)) [
    | inr (x, f) ↦ let g : normalize_and_validate_peers ps ≡ err x = rw (short, f) refl in cc
    | inl (rs, f) ↦ elim (Bool-cases (has_duplicates [] rs)) [
      | inl twice ↦
          let g : normalize_and_validate_peers ps ≡ err duplicate_peers =
            rw (short, f, twice) refl in
          cc
      | inr once ↦
          let g : normalize_and_validate_peers ps ≡ ok rs = rw (short, f, once) refl in
          let same : rs ≡ qs = cc in
          let (made, valid, long) = normalize_all_lem ps rs f in
          let (new, distinct) = has_duplicates-Distinct [] rs once in
          subst (λ (xs : List Peer). IsBook xs × (xs ≡ map normalized ps)) same
            ((ground arith, valid, distinct), made)
    ]
  ]
]
