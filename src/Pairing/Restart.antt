-- ===== src/Pairing/Restart.antt =====
-- kvm-protocol/src/pairing.rs: revoking a peer, and what a restart loads.
use thekvm.Prelude.{
  ℕ, ◌≤◌, ◌≡◌, ◌≢◌, ◌⊎◌, refl, sym, ap, ◌∙◌, Bool, true, false, not, ◌&&◌, Option, some, List, [],
  ◌∷◌, ◌==◌, length, any, All, Distinct, arith, Bool-cases, inl, inr,
}
use mathlib.Core.Path.{subst}
use thekvm.Prelude.Result.{Result, ok, err, Result-cases}
use thekvm.Prelude.Text.{Text, text_eq, text_eq→eq, text_eq_refl, to_ascii_lowercase, trim}
use thekvm.Pairing.{
  PairingError, unwritten_book, Peer, PeerBook, wanted, has_fingerprint, without, is_pinned,
  normalize_and_validate_peers, stored_peers, load_or_create, pin_with_address, removed, unpin,
}
use thekvm.Pairing.Book.{IsPeer, IsBook, valid_book_kept, normalize_and_validate_peers-IsBook}
use thekvm.Pairing.Trust.{save_lem, pin_with_address-IsPinning}

module _ (k : Text) where
  All-without {κ} : (P : Peer → Type κ) (ps : List Peer) → All P ps → All P (without k ps)
  unfolding without
  All-without P [] h = tt
  All-without P (p ∷ ps) (h, hs) = elim (Bool-cases (has_fingerprint k p)) [
    | inl e ↦ rw e (All-without P ps hs)
    | inr e ↦ rw e (h, All-without P ps hs)
  ]

  without-Distinct :
      (ps : List Peer)
      → Distinct (λ (q : Peer). q.fingerprint_hex) ps
      → Distinct (λ (q : Peer). q.fingerprint_hex) (without k ps)
  unfolding without
  without-Distinct [] h = tt
  without-Distinct (p ∷ ps) (h, hs) = elim (Bool-cases (has_fingerprint k p)) [
    | inl e ↦ rw e (without-Distinct ps hs)
    | inr e ↦ rw e (
      All-without (λ (q : Peer). q.fingerprint_hex ≢ p.fingerprint_hex) ps h,
      without-Distinct ps hs,
    )
  ]

  -- The list is shorter exactly when the peer was there.
  length-without :
      (ps : List Peer)
      → (length (without k ps) ≤ length ps)
        × ((length (without k ps) == length ps) ≡ not (any (has_fingerprint k) ps))
  unfolding without any
  length-without [] = (omega arith, refl)
  length-without (p ∷ ps) = ground (arith, length-without ps)

  text_eq_same : (f w : Text) → text_eq f k ≡ true → text_eq f w ≡ text_eq k w
  text_eq_same f w e = ap (λ (x : Text). text_eq x w) (text_eq→eq f k e)

  text_eq_other : (f w : Text) → text_eq f k ≡ false → text_eq f w ≡ true → text_eq k w ≡ false
  text_eq_other f w e h = elim (Bool-cases (text_eq k w)) [
    | inl g ↦
        let same : f ≡ k = text_eq→eq f w h ∙ sym (text_eq→eq k w g) in
        let hit : text_eq f k ≡ true = rw same (text_eq_refl k) in cc
    | inr g ↦ g
  ]

  any-without :
      (w : Text) (ps : List Peer)
      → any (has_fingerprint w) (without k ps) ≡ (not (text_eq k w) && any (has_fingerprint w) ps)
  unfolding any without
  any-without w [] = ground arith
  any-without w (p ∷ ps) =
      let rest = any-without w ps in
      let f = p.fingerprint_hex in
      elim (Bool-cases (text_eq f k)) [
        | inl e ↦ let same = text_eq_same f w e in ground arith
        | inr e ↦ let other = text_eq_other f w e in ground arith
      ]

module _ (to_json : List Peer → List ℕ) where
  -- The peer is gone in memory at once; the file has the rest when the call succeeds, and is as it
  -- was when it fails or when the peer was not there.
  abbrev pub IsRevoked : PeerBook → Text → PeerBook × Result PairingError Bool → Type 0
  IsRevoked book fingerprint (next, result) =
      IsBook next.peers
      × (is_pinned next fingerprint ≡ false)
      × ((x : Text)
          → is_pinned next x ≡ (not (text_eq (wanted fingerprint) (wanted x)) && is_pinned book x))
      × (((result ≡ ok true) × (next.file ≡ some (to_json next.peers)))
          ⊎ (((result ≡ ok false)
                × (length next.peers ≡ length book.peers)
                × (next.file ≡ book.file))
              ⊎ ((e : PairingError) × (result ≡ err e) × (next.file ≡ book.file))))

  -- Revoking a fingerprint without white space around it in a valid book keeps the book valid and
  -- ends the trust in it, in upper or lower case, and in no other fingerprint, even when the file
  -- cannot be written; the file follows when the call succeeds.
  pub unpin-IsRevoked :
      (writes : Bool) (book : PeerBook) (fingerprint : Text)
      → IsBook book.peers
      → trim fingerprint ≡ fingerprint
      → IsRevoked book fingerprint (unpin to_json writes book fingerprint)
  unfolding unpin is_pinned wanted
  unpin-IsRevoked writes book fingerprint (size, valid, distinct) bare =
      let k = to_ascii_lowercase fingerprint in
      let asked : wanted fingerprint ≡ k = ap to_ascii_lowercase bare in
      let ps = book.peers in
      let next = record book { peers = without k ps } in
      let (shorter, same) = length-without k ps in
      let good : IsBook next.peers =
        (omega arith, All-without k IsPeer ps valid, without-Distinct k ps distinct) in
      let trust : (x : Text)
          → is_pinned next x ≡ (not (text_eq (wanted fingerprint) (wanted x)) && is_pinned book x) =
        λ (x : Text).
          any-without k (wanted x) ps
          ∙ ap (λ w. not (text_eq w (wanted x)) && is_pinned book x) (sym asked) in
      let gone : is_pinned next fingerprint ≡ false =
        ground (arith, trust fingerprint, text_eq_refl (wanted fingerprint)) in
      elim (Bool-cases (length (without k ps) == length ps)) [
        | inl e ↦ rw e (good, gone, trust, inr (inl (refl, ground arith, refl)))
        | inr e ↦ elim (Bool-cases writes) [
          | inl w ↦
              rw (e, save_lem to_json writes next good, w)
                (unfold removed in (good, gone, trust, inl (refl, refl)))
          | inr w ↦
              rw (e, save_lem to_json writes next good, w)
                (unfold removed in (good, gone, trust, inr (inr (unwritten_book, refl, refl))))
        ]
      ]

module _ (from_json : List ℕ → Option (List Peer)) where
  loaded_as :
      (file : Option (List ℕ)) (ps qs : List Peer)
      → stored_peers from_json file ≡ ok ps
      → normalize_and_validate_peers ps ≡ ok qs
      → load_or_create from_json file ≡ ok (record { peers = qs; file = file })
  unfolding load_or_create
  loaded_as file ps qs e f = rw (load_or_create, e, f) refl

  -- Whatever the file has, the book that is loaded from it is valid.
  pub load_or_create-IsBook :
      (file : Option (List ℕ)) (book : PeerBook)
      → load_or_create from_json file ≡ ok book
      → IsBook book.peers × (book.file ≡ file)
  unfolding load_or_create
  load_or_create-IsBook file book e = elim (Result-cases (stored_peers from_json file)) [
    | inr (x, f) ↦ let g : load_or_create from_json file ≡ err x = rw (load_or_create, f) refl in cc
    | inl (ps, f) ↦ elim (Result-cases (normalize_and_validate_peers ps)) [
      | inr (x, g) ↦
          let h : load_or_create from_json file ≡ err x = rw (load_or_create, f, g) refl in cc
      | inl (qs, g) ↦
          let made : PeerBook = record { peers = qs; file = file } in
          let loaded : load_or_create from_json file ≡ ok made = loaded_as file ps qs f g in
          let h : made ≡ book = cc in
          subst (λ (b : PeerBook). IsBook b.peers × (b.file ≡ file)) h
            ((normalize_and_validate_peers-IsBook ps qs g).0, refl)
    ]
  ]

  module _ (to_json : List Peer → List ℕ) where
    reload :
        (book : PeerBook)
        → from_json (to_json book.peers) ≡ some book.peers
        → IsBook book.peers
        → book.file ≡ some (to_json book.peers)
        → load_or_create from_json book.file ≡ ok book
    unfolding stored_peers
    reload book reads_back h f =
        let stored : stored_peers from_json book.file ≡ ok book.peers =
          rw (f, stored_peers, reads_back) refl in
        loaded_as book.file book.peers book.peers stored (valid_book_kept book.peers h)

    -- A book that was loaded, and pins a peer with success, is loaded again as it is, when the coding
    -- of the file reads back what it writes of these peers.
    pub load_or_create-pin_with_address :
        (writes : Bool) (file : Option (List ℕ)) (book : PeerBook) (name fingerprint : Text)
        (address : Option Text)
        → load_or_create from_json file ≡ ok book
        → (pin_with_address to_json writes book name fingerprint address).1 ≡ ok tt
        → from_json
            (to_json (pin_with_address to_json writes book name fingerprint address).0.peers)
          ≡ some (pin_with_address to_json writes book name fingerprint address).0.peers
        → let next = (pin_with_address to_json writes book name fingerprint address).0 in
          load_or_create from_json next.file ≡ ok next
    load_or_create-pin_with_address writes file book name fingerprint address e success reads_back =
        let (valid, same) = load_or_create-IsBook file book e in
        let (good, rest) =
          pin_with_address-IsPinning to_json writes book name fingerprint address valid in
        elim rest [
          | inr (x, f, kept) ↦ cc
          | inl (f, inl saved, trust) ↦
              reload (pin_with_address to_json writes book name fingerprint address).0 reads_back
                good saved
          | inl (f, inr unchanged, trust) ↦
              subst (λ (b : PeerBook). load_or_create from_json b.file ≡ ok b) (sym unchanged)
                (ap (load_or_create from_json) same ∙ e)
        ]
