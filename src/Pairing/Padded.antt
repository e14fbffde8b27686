-- ===== src/Pairing/Padded.antt =====
-- kvm-protocol/src/pairing.rs: `unpin` does not trim its argument, and `is_pinned` does.
use thekvm.Prelude.{
  ℕ, ◌≡◌, ◌≢◌, refl, sym, ap, Bool, true, false, List, [], ◌∷◌, ◌==◌, length, any, All, All-map,
  arith, Bool-cases, inl, inr,
}
use mathlib.Core.Path.{subst}
use thekvm.Prelude.Result.{ok}
use thekvm.Prelude.Text.{Text, text_eq→eq, lower, is_hexdigit, to_ascii_lowercase, trim}
use thekvm.Prelude.Trim.{trim_unchanged, hex-IsTrimmed, trim-trim}
use thekvm.Pairing.{Peer, PeerBook, wanted, has_fingerprint, is_pinned, without, unpin}
use thekvm.Pairing.Book.{IsPeer, IsBook}

lower-hexdigit : (c : ℕ) → is_hexdigit (lower c) ≡ true → is_hexdigit c ≡ true
unfolding lower is_hexdigit
lower-hexdigit c h = ground arith

hexdigits_before :
    (s : Text)
    → All (λ c. is_hexdigit c ≡ true) (to_ascii_lowercase s)
    → All (λ c. is_hexdigit c ≡ true) s
unfolding to_ascii_lowercase
hexdigits_before [] h = tt
hexdigits_before (c ∷ s) (h, hs) = (lower-hexdigit c h, hexdigits_before s hs)

no_peer :
    (fingerprint : Text) (p : Peer)
    → trim fingerprint ≢ fingerprint
    → IsPeer p
    → has_fingerprint (to_ascii_lowercase fingerprint) p ≡ false
no_peer fingerprint p padded (same, (line, (size, digits), address)) =
    elim (Bool-cases (has_fingerprint (to_ascii_lowercase fingerprint) p)) [
      | inr far ↦ far
      | inl own ↦
          let e = text_eq→eq p.fingerprint_hex (to_ascii_lowercase fingerprint) own in
          let bare =
            hexdigits_before fingerprint
              (subst (λ s. All (λ c. is_hexdigit c ≡ true) s) e digits) in
          absurd (padded (trim_unchanged fingerprint (hex-IsTrimmed fingerprint bare)))
    ]

without_none :
    (k : Text) (ps : List Peer)
    → All (λ (p : Peer). has_fingerprint k p ≡ false) ps
    → without k ps ≡ ps
unfolding without
without_none k [] h = refl
without_none k (p ∷ ps) (h, hs) = rw h (ap (λ (qs : List Peer). p ∷ qs) (without_none k ps hs))

-- With white space around it, revoking a fingerprint changes nothing in a valid book and reports
-- that no peer has it, whereas the test of trust finds the same peers as for the trimmed one.
pub unpin_padded :
    (to_json : List Peer → List ℕ) (writes : Bool) (book : PeerBook) (fingerprint : Text)
    → IsBook book.peers
    → trim fingerprint ≢ fingerprint
    → (unpin to_json writes book fingerprint ≡ (book, ok false))
      × (is_pinned book fingerprint ≡ is_pinned book (trim fingerprint))
unfolding unpin is_pinned wanted
unpin_padded to_json writes book fingerprint (size, valid, distinct) padded =
    let k = to_ascii_lowercase fingerprint in
    let kept : without k book.peers ≡ book.peers =
      without_none k book.peers
        (All-map (λ p h. no_peer fingerprint p padded h) book.peers valid) in
    let full : (length (without k book.peers) == length book.peers) ≡ true =
      ground (arith, ap length kept) in
    (
      rw (unpin, full) (ap (λ (ps : List Peer). (record book { peers = ps }, ok false)) kept),
      ap (λ s. any (has_fingerprint (to_ascii_lowercase s)) book.peers)
          (sym (trim-trim fingerprint)),
    )
