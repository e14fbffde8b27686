-- ===== src/Pairing/Updates.antt =====
-- kvm-protocol/src/pairing.rs: what pinning does to the list of peers.
use thekvm.Prelude.{
  ◌≡◌, ◌≢◌, refl, ap, Bool, true, false, ◌||◌, Option, none, some, List, [], ◌∷◌, length, any, All,
  Distinct, is_some, arith, Bool-cases, inl, inr,
}
use thekvm.Prelude.Text.{Text, text_eq→eq, trim}
use thekvm.Prelude.Trim.{hex-IsTrimmed, trim_unchanged}
use thekvm.Pairing.{
  Peer, trim_option, normalized, wanted, has_fingerprint, updated, same_option, is_changed,
  update_peer, changes_peer,
}
use thekvm.Pairing.Book.{IsPeer, IsLine, IsAddress}

-- The fingerprint of a valid peer is what a caller's spelling of it is compared with.
pub wanted-fingerprint : (p : Peer) → IsPeer p → wanted p.fingerprint_hex ≡ p.fingerprint_hex
unfolding wanted normalized
wanted-fingerprint p (same, (name, (size, hex), address)) =
    rw (trim_unchanged p.fingerprint_hex (hex-IsTrimmed p.fingerprint_hex hex))
      (ap (λ (q : Peer). q.fingerprint_hex) same)

module _ (k : Text) (name : Text) (address : Option Text) where
  pub any-update_peer :
      (w : Text) (ps : List Peer)
      → any (has_fingerprint w) (update_peer k name address ps) ≡ any (has_fingerprint w) ps
  unfolding any update_peer updated
  any-update_peer w [] = refl
  any-update_peer w (p ∷ ps) = elim (Bool-cases (has_fingerprint k p)) [
    | inl e ↦ rw e refl
    | inr e ↦ rw e (ap (λ (b : Bool). has_fingerprint w p || b) (any-update_peer w ps))
  ]

  pub length-update_peer : (ps : List Peer) → length (update_peer k name address ps) ≡ length ps
  unfolding update_peer
  length-update_peer [] = refl
  length-update_peer (p ∷ ps) = ground (arith, length-update_peer ps)

  update_peer-apart :
      (f : Text) (ps : List Peer)
      → All (λ (q : Peer). q.fingerprint_hex ≢ f) ps
      → All (λ (q : Peer). q.fingerprint_hex ≢ f) (update_peer k name address ps)
  unfolding update_peer updated
  update_peer-apart f [] h = tt
  update_peer-apart f (p ∷ ps) (h, hs) = elim (Bool-cases (has_fingerprint k p)) [
    | inl e ↦ rw e (h, hs)
    | inr e ↦ rw e (h, update_peer-apart f ps hs)
  ]

  pub update_peer-Distinct :
      (ps : List Peer)
      → Distinct (λ (q : Peer). q.fingerprint_hex) ps
      → Distinct (λ (q : Peer). q.fingerprint_hex) (update_peer k name address ps)
  unfolding update_peer updated
  update_peer-Distinct [] h = tt
  update_peer-Distinct (p ∷ ps) (h, hs) = elim (Bool-cases (has_fingerprint k p)) [
    | inl e ↦ rw e (h, hs)
    | inr e ↦ rw e (update_peer-apart p.fingerprint_hex ps h, update_peer-Distinct ps hs)
  ]

  module _ (trimmed : trim name ≡ name) (line : IsLine 128 name)
      (tidy : trim_option address ≡ address) (valid : IsAddress address) where
    updated-IsPeer : (p : Peer) → IsPeer p → IsPeer (updated name address p)
    unfolding updated normalized
    updated-IsPeer p (same, (n, f, a)) = elim (Bool-cases (is_some address)) [
      | inl e ↦
          rw e
            (rw (trimmed, tidy, ap (λ (q : Peer). q.fingerprint_hex) same) refl, (line, f, valid))
      | inr e ↦ rw e (
        rw (trimmed, ap (λ (q : Peer). q.fingerprint_hex) same, ap (λ (q : Peer). q.address) same)
            refl,
        (line, f, a),
      )
    ]

    pub update_peer-IsPeer :
        (ps : List Peer) → All IsPeer ps → All IsPeer (update_peer k name address ps)
    unfolding update_peer
    update_peer-IsPeer [] h = tt
    update_peer-IsPeer (p ∷ ps) (h, hs) = elim (Bool-cases (has_fingerprint k p)) [
      | inl e ↦ rw e (updated-IsPeer p h, hs)
      | inr e ↦ rw e (h, update_peer-IsPeer ps hs)
    ]

  same_option→eq : (a b : Option Text) → same_option a b ≡ true → a ≡ b
  unfolding same_option
  same_option→eq none none h = refl
  same_option→eq none (some b) h = cc
  same_option→eq (some a) none h = cc
  same_option→eq (some a) (some b) h = ap some (text_eq→eq a b h)

  unchanged_same : (p : Peer) → is_changed name address p ≡ false → updated name address p ≡ p
  unfolding is_changed updated
  unchanged_same p h =
      let n : p.name ≡ name = text_eq→eq p.name name (ground arith) in
      elim (Bool-cases (is_some address)) [
        | inl e ↦
            let s : same_option p.address address ≡ true = ground arith in
            let a = same_option→eq p.address address s in rw (e, ← n, ← a) refl
        | inr e ↦ rw (e, ← n) refl
      ]

  -- An update that changes nothing leaves the list as it is.
  pub update_peer_unchanged :
      (ps : List Peer) → changes_peer k name address ps ≡ false → update_peer k name address ps ≡ ps
  unfolding changes_peer update_peer
  update_peer_unchanged [] h = refl
  update_peer_unchanged (p ∷ ps) h = elim (Bool-cases (has_fingerprint k p)) [
    | inl e ↦
        let f : is_changed name address p ≡ false = ground arith in rw (e, unchanged_same p f) refl
    | inr e ↦
        let f : changes_peer k name address ps ≡ false = ground arith in
        rw (e, update_peer_unchanged ps f) refl
  ]
