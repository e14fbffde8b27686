-- ===== src/Pairing/Trust.antt =====
-- kvm-protocol/src/pairing.rs: who is trusted after each operation of the book, and what its file has.
use thekvm.Prelude.{
  ℕ, ◌≡◌, ◌≢◌, ◌⊎◌, refl, sym, ap, ◌∙◌, Bool, true, false, ◌||◌, Option, some, List, [], ◌∷◌, ◌++◌,
  leb, if◌then◌else◌, length, any, All-append, length-append, Distinct, arith, Bool-cases, inl, inr,
}
use thekvm.Prelude.Result.{Result, ok, err, Result-cases}
use thekvm.Prelude.Text.{Text, text_eq, text_eq→eq, trim, to_ascii_lowercase}
use thekvm.Pairing.{
  PairingError, too_many_peers, unwritten_book, Peer, PeerBook, trim_option, normalized, check_peer,
  wanted, has_fingerprint, update_peer, changes_peer, is_pinned, save, pin_new, pin_again,
  pin_with_address,
}
use thekvm.Pairing.Book.{
  IsPeer, IsBook, HasFields, normalized_trims, kept_peer, valid_book_kept, text_eq→apart,
}
use thekvm.Pairing.Updates.{
  wanted-fingerprint, any-update_peer, length-update_peer, update_peer-Distinct, update_peer-IsPeer,
  update_peer_unchanged,
}

any-append :
    {A : Type 0} (p : A → Bool) (xs ys : List A) → any p (xs ++ ys) ≡ (any p xs || any p ys)
unfolding any
any-append p [] ys = refl
any-append p (x ∷ xs) ys = ground (arith, any-append p xs ys)

Distinct-append_one :
    (ps : List Peer) (p : Peer)
    → Distinct (λ (q : Peer). q.fingerprint_hex) ps
    → any (has_fingerprint p.fingerprint_hex) ps ≡ false
    → Distinct (λ (q : Peer). q.fingerprint_hex) (ps ++ (p ∷ []))
unfolding any
Distinct-append_one [] p d h = (tt, tt)
Distinct-append_one (q ∷ ps) p (d, ds) h =
    let apart = text_eq→apart q.fingerprint_hex p.fingerprint_hex (ground arith) in
    (
      All-append (λ (r : Peer). r.fingerprint_hex ≢ q.fingerprint_hex) ps (p ∷ []) d
          ((λ e. apart (sym e)), tt),
      Distinct-append_one ps p ds (ground arith),
    )

module _ (to_json : List Peer → List ℕ) where
  -- The peers after a call, whom they trust, and the file: as they should be when the call succeeds,
  -- and the file as it was when it fails.
  abbrev pub IsPinning : PeerBook → Text → PeerBook × Result PairingError (Unit {0}) → Type 0
  IsPinning book fingerprint r =
      IsBook r.0.peers
      × (((r.1 ≡ ok tt)
            × ((r.0.file ≡ some (to_json r.0.peers)) ⊎ (r.0 ≡ book))
            × ((x : Text) → is_pinned r.0 x ≡ (text_eq fingerprint (wanted x) || is_pinned book x)))
          ⊎ ((e : PairingError) × (r.1 ≡ err e) × (r.0.file ≡ book.file)))

module _ (to_json : List Peer → List ℕ) (writes : Bool) where
  pub save_lem :
      (book : PeerBook)
      → IsBook book.peers
      → save to_json writes book ≡ (
          if writes
          then (record book { file = some (to_json book.peers) }, ok tt)
          else (book, err unwritten_book))
  unfolding save
  save_lem book h = rw (save, valid_book_kept book.peers h) refl

  saved-IsPinning :
      (book next : PeerBook) (k : Text)
      → IsBook next.peers
      → next.file ≡ book.file
      → ((x : Text) → is_pinned next x ≡ (text_eq k (wanted x) || is_pinned book x))
      → IsPinning to_json book k (save to_json writes next)
  unfolding is_pinned
  saved-IsPinning book next k h f t = elim (Bool-cases writes) [
    | inl w ↦ rw (save_lem next h, w) (h, inl (refl, inl refl, t))
    | inr w ↦ rw (save_lem next h, w) (h, inr (unwritten_book, refl, f))
  ]

  pinned_new :
      (book : PeerBook) (p : Peer) (x : Text)
      → is_pinned (record book { peers = book.peers ++ (p ∷ []) }) x
        ≡ (text_eq p.fingerprint_hex (wanted x) || is_pinned book x)
  unfolding is_pinned
  pinned_new book p x = any-append (has_fingerprint (wanted x)) book.peers (p ∷ []) ∙ ground arith

  pin_new-IsPinning :
      (book : PeerBook) (p : Peer)
      → IsBook book.peers
      → IsPeer p
      → is_pinned book p.fingerprint_hex ≡ false
      → IsPinning to_json book p.fingerprint_hex (pin_new to_json writes book p)
  unfolding pin_new is_pinned
  pin_new-IsPinning book p (size, valid, distinct) h new =
      elim (Bool-cases (leb 256 (length book.peers))) [
        | inl full ↦ rw full ((size, valid, distinct), inr (too_many_peers, refl, refl))
        | inr room ↦
            let absent : any (has_fingerprint p.fingerprint_hex) book.peers ≡ false =
              ap (λ (w : Text). any (has_fingerprint w) book.peers) (sym (wanted-fingerprint p h))
              ∙ new in
            let long = length-append book.peers (p ∷ []) in
            rw room (
              saved-IsPinning book (record book { peers = book.peers ++ (p ∷ []) })
                p.fingerprint_hex
                (
                  (ground arith),
                  All-append IsPeer book.peers (p ∷ []) valid (h, tt),
                  Distinct-append_one book.peers p distinct absent,
                )
                refl (pinned_new book p))
      ]

  trusted_again :
      (k w : Text) (ps : List Peer)
      → any (has_fingerprint k) ps ≡ true
      → any (has_fingerprint w) ps ≡ (text_eq k w || any (has_fingerprint w) ps)
  trusted_again k w ps h = elim (Bool-cases (text_eq k w)) [
    | inl e ↦
        let same = ap (λ (x : Text). any (has_fingerprint x) ps) (text_eq→eq k w e) in
        rw e (sym same ∙ h)
    | inr e ↦ rw e refl
  ]

  module _ (book : PeerBook) (k name : Text) (address : Option Text)
      (known : is_pinned book k ≡ true) (plain : wanted k ≡ k) (trimmed : trim name ≡ name)
      (tidy : trim_option address ≡ address) where
    pinned_again :
        (x : Text)
        → is_pinned (record book { peers = update_peer k name address book.peers }) x
          ≡ (text_eq k (wanted x) || is_pinned book x)
    unfolding is_pinned
    pinned_again x =
        let here : any (has_fingerprint k) book.peers ≡ true =
          ap (λ (w : Text). any (has_fingerprint w) book.peers) (sym plain) ∙ known in
        any-update_peer k name address (wanted x) book.peers
        ∙ trusted_again k (wanted x) book.peers here

    pin_again-IsPinning :
        (fields : HasFields (record { name = name; fingerprint_hex = k; address = address }))
        → IsBook book.peers
        → IsPinning to_json book k (pin_again to_json writes book k name address)
    unfolding pin_again
    pin_again-IsPinning (line, fp, valid) (size, all, distinct) =
        let next = record book { peers = update_peer k name address book.peers } in
        let ps = book.peers in
        let long = length-update_peer k name address ps in
        let good : IsBook next.peers = (
          omega arith,
          update_peer-IsPeer k name address trimmed line tidy valid ps all,
          update_peer-Distinct k name address ps distinct,
        ) in
        elim (Bool-cases (changes_peer k name address ps)) [
          | inl e ↦ rw e (saved-IsPinning book next k good refl pinned_again)
          | inr e ↦
              let same : next ≡ book =
                ap (λ (qs : List Peer). let b : PeerBook = record book { peers = qs } in b)
                  (update_peer_unchanged k name address ps e) in
              rw e (good, inl (refl, inr same, pinned_again))
        ]

  pin_raw-IsPinning :
      (book : PeerBook) (raw : Peer)
      → IsBook book.peers
      → IsPinning to_json book
          (normalized raw).fingerprint_hex
          (pin_with_address to_json writes book raw.name raw.fingerprint_hex raw.address)
  unfolding pin_with_address
  pin_raw-IsPinning book raw h =
      let p = normalized raw in
      elim (Result-cases (check_peer p)) [
        | inr (e, f) ↦ rw (pin_with_address, f) (h, inr (e, refl, refl))
        | inl (u, f) ↦
            let good = kept_peer raw f in
            let (trimmed, tidy) = normalized_trims p good.0 in
            elim (Bool-cases (is_pinned book p.fingerprint_hex)) [
              | inr new ↦ rw (pin_with_address, f, new) (pin_new-IsPinning book p h good new)
              | inl known ↦
                  rw (pin_with_address, f, known)
                    (pin_again-IsPinning book p.fingerprint_hex p.name p.address known
                      (wanted-fingerprint p good) trimmed tidy good.1 h)
            ]
      ]

  -- From a valid book, pinning a peer keeps the book valid. When it succeeds, the trusted
  -- fingerprints are those of before and the pinned one, in every spelling of it, and the file has
  -- the peers, or nothing has changed; when it fails the file is as it was.
  pub pin_with_address-IsPinning :
      (book : PeerBook) (name fingerprint : Text) (address : Option Text)
      → IsBook book.peers
      → IsPinning to_json book
          (to_ascii_lowercase fingerprint)
          (pin_with_address to_json writes book name fingerprint address)
  unfolding normalized
  pin_with_address-IsPinning book name fingerprint address =
      pin_raw-IsPinning book
        (record { name = name; fingerprint_hex = fingerprint; address = address })
