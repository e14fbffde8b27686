-- ===== src/Invite/InviteTrip.antt =====
-- kvm-protocol/src/invite.rs: an invite that is built is read back.
use thekvm.Prelude.{
  ℕ, ◌<◌, ◌≡◌, refl, sym, ap, ◌∙◌, true, false, none, some, [], ◌∷◌, ◌++◌, ◌==◌, length, any, All,
  All-map, length-append, any-All, All-any, arith, inl, inr,
}
use mathlib.Core.Path.{subst}
use mathlib.Core.List.{reverse, reverse-append, reverse-cons, append_assoc}
use thekvm.Prelude.Result.{ok, err, Result-cases}
use thekvm.Prelude.Deciding.{all-All}
use thekvm.Prelude.Slices.{drop}
use thekvm.Prelude.Text.{
  Text, trim, trim_start, to_ascii_lowercase, lower, is_control, is_hexdigit, is_whitespace,
}
use thekvm.Prelude.Trim.{
  IsTrimmed, trim_unchanged, trim-trim, hex-IsTrimmed, lowercase-lowercase, hexdigit-black,
  All-reverse, All-trim,
}
use thekvm.Pairing.{wanted, bad_fingerprint}
use thekvm.Invite.{
  invite_scheme, hash_mark, rsplit_once, body_of, check_parts, parse_body, parse, build,
}

-- The last mark is the one after which there is none.
unsplit : (mark : ℕ) (b : Text) → All (λ c. (c == mark) ≡ false) b → rsplit_once mark b ≡ none
unfolding rsplit_once
unsplit mark [] h = refl
unsplit mark (c ∷ b) (h, hs) = rw (unsplit mark b hs, h) refl

split_at :
    (mark : ℕ) (a b : Text)
    → All (λ c. (c == mark) ≡ false) b
    → rsplit_once mark (a ++ (mark ∷ b)) ≡ some (a, b)
unfolding rsplit_once
split_at mark [] b h =
    let same : (mark == mark) ≡ true = ground arith in rw (unsplit mark b h, same) refl
split_at mark (c ∷ a) b h = rw (split_at mark a b h) refl

hex-unmarked : (c : ℕ) → is_hexdigit c ≡ true → (c == hash_mark) ≡ false
unfolding is_hexdigit
hex-unmarked c h = ground arith

-- A fingerprint in its canonical spelling.
abbrev pub IsCanonical : Text → Type 0
IsCanonical f = (length f ≡ 64) × All (λ c. is_hexdigit c ≡ true) f × (to_ascii_lowercase f ≡ f)

wanted-canonical : (f : Text) → IsCanonical f → wanted f ≡ f
unfolding wanted
wanted-canonical f (size, hex, low) = rw (trim_unchanged f (hex-IsTrimmed f hex)) low

length-reverse : (s : Text) → length (reverse s) ≡ length s
length-reverse [] = refl
length-reverse (c ∷ s) =
    ap length (reverse-cons c s)
    ∙ length-append (reverse s) (c ∷ [])
    ∙ omega (arith, length-reverse s)

-- A text that ends in a fingerprint has no white space at its end.
end_kept :
    (x f : Text)
    → All (λ c. is_whitespace c ≡ false) f
    → 0 < length f
    → trim_start (f ++ x) ≡ f ++ x
unfolding trim_start
end_kept x [] h l = absurd (omega arith)
end_kept x (c ∷ f) (h, hs) l = rw h refl

parts_lem :
    (address fingerprint : Text)
    → check_parts address fingerprint ≡ ok tt
    → (bad_fingerprint fingerprint ≡ false) × (any is_control address ≡ false)
unfolding check_parts
parts_lem address fingerprint e = ground arith

good_fingerprint :
    (f : Text) → bad_fingerprint f ≡ false → (length f ≡ 64) × All (λ c. is_hexdigit c ≡ true) f
unfolding bad_fingerprint
good_fingerprint f h = (ground arith, all-All is_hexdigit f (ground arith))

body_of-scheme : (x : Text) → body_of (invite_scheme ++ x) ≡ x
unfolding body_of to_ascii_lowercase lower drop
body_of-scheme x = refl

scheme_start : (x : Text) → trim_start (invite_scheme ++ x) ≡ invite_scheme ++ x
unfolding trim_start is_whitespace
scheme_start x = refl

invite-IsTrimmed :
    (a f : Text) → IsCanonical f → IsTrimmed (invite_scheme ++ (a ++ (hash_mark ∷ f)))
invite-IsTrimmed a f (size, hex, low) =
    let black =
      All-reverse (λ c. is_whitespace c ≡ false) f (All-map (λ c. hexdigit-black c) f hex) in
    let front = invite_scheme ++ (a ++ (hash_mark ∷ [])) in
    let whole : invite_scheme ++ (a ++ (hash_mark ∷ f)) ≡ front ++ f =
      ap (λ (x : Text). invite_scheme ++ x) (sym (append_assoc a (hash_mark ∷ []) f)) in
    let long = length-reverse f in
    let back : reverse (invite_scheme ++ (a ++ (hash_mark ∷ f))) ≡ reverse f ++ reverse front =
      ap reverse whole ∙ reverse-append front f in
    (
      scheme_start (a ++ (hash_mark ∷ f)),
      rw back (end_kept (reverse front) (reverse f) black (omega arith)),
    )

wanted-IsCanonical : (f : Text) → bad_fingerprint (wanted f) ≡ false → IsCanonical (wanted f)
unfolding wanted
wanted-IsCanonical f h =
    let (size, hex) = good_fingerprint (wanted f) h in (size, hex, lowercase-lowercase (trim f))

-- An invite that is built, from any spelling of the address and the fingerprint, is read back as
-- the trimmed address and the fingerprint in lower case.
pub parse-build :
    (address fingerprint invite : Text)
    → build address fingerprint ≡ ok invite
    → parse invite ≡ ok (trim address, wanted fingerprint)
unfolding build parse parse_body check_parts
parse-build address fingerprint invite e =
    let f = wanted fingerprint in
    let a = trim address in
    elim (Result-cases (check_parts address f)) [
      | inr (x, g) ↦ let h : build address fingerprint ≡ err x = rw (build, g) refl in cc
      | inl (u, g) ↦
          let (good, plain) = parts_lem address f g in
          let canonical = wanted-IsCanonical fingerprint good in
          let made : build address fingerprint ≡ ok (invite_scheme ++ (a ++ (hash_mark ∷ f))) =
            rw (build, g) refl in
          let same : invite_scheme ++ (a ++ (hash_mark ∷ f)) ≡ invite = cc in
          let unmarked = All-map (λ c. hex-unmarked c) f canonical.1 in
          let controls : any is_control a ≡ false =
            All-any is_control a
              (All-trim (λ c. is_control c ≡ false) address (any-All is_control address plain)) in
          let parts : check_parts a f ≡ ok tt = rw (check_parts, good, controls) refl in
          let trimmed = trim_unchanged _ (invite-IsTrimmed a f canonical) in
          let body = body_of-scheme (a ++ (hash_mark ∷ f)) in
          let split = split_at hash_mark a f unmarked in
          subst (λ (t : Text). parse t ≡ ok (a, f)) same
            (rw
              (
                parse,
                parse_body,
                trimmed,
                body,
                split,
                trim-trim address,
                wanted-canonical f canonical,
                parts,
              )
              refl)
    ]
