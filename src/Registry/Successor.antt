-- ===== src/Registry/Successor.antt =====
-- kvm-daemon/src/service.rs: a registered link stays until it is replaced or removed under its own id.
use thekvm.Prelude.{
  ℕ, ◌≡◌, refl, sym, ap, ◌∙◌, Bool, true, false, ◌&&◌, Option, none, some, List, [], ◌∷◌, ◌==◌,
  if◌then◌else◌, find, update_first, All, arith, Bool-cases, inl, inr,
}
use mathlib.Core.Path.{subst}
use thekvm.Prelude.Text.{Text, text_eq, text_eq→eq, text_eq_refl}
use thekvm.Registry.{
  InboundLink, Registry, is_link_of, without_link, register_inbound_link, owns_entry,
  remove_inbound_link, note_inbound_activity, drop_inbound_link, any_link, RegistryOp, registers,
  removes, drives, drops, step, steps,
}

-- The entry has this id and what was registered with it.
abbrev pub IsEntry : ℕ → Text → Text → Option ℕ → Option InboundLink → Type 0
IsEntry id n a l none = ⊥
IsEntry id n a l (some r) = (r.id ≡ id) × (r.node_name ≡ n) × (r.address ≡ a) × (r.link_id ≡ l)

other_peer : (f g h : Text) → text_eq g f ≡ false → text_eq h g ≡ true → text_eq h f ≡ false
other_peer f g h e i = ap (λ (x : Text). text_eq x f) (text_eq→eq h g i) ∙ e

find-without_link :
    (f g : Text) (ls : List InboundLink)
    → text_eq g f ≡ false
    → find (is_link_of f) (without_link g ls) ≡ find (is_link_of f) ls
unfolding find without_link
find-without_link f g [] e = refl
find-without_link f g (l ∷ ls) e = elim (Bool-cases (is_link_of g l)) [
  | inl hit ↦
      let miss = other_peer f g l.fingerprint_hex e hit in
      rw (hit, miss) (find-without_link f g ls e)
  | inr other ↦ elim (Bool-cases (is_link_of f l)) [
    | inl own ↦ rw (other, own) refl
    | inr far ↦ rw (other, far) (find-without_link f g ls e)
  ]
]

-- A change of counters and flags keeps what was registered.
update-IsEntry :
    (f : Text) (p : InboundLink → Bool) (u : InboundLink → InboundLink) (ls : List InboundLink)
    (id : ℕ) (n a : Text) (l : Option ℕ)
    → ((r : InboundLink)
        → ((u r).id ≡ r.id)
          × ((u r).fingerprint_hex ≡ r.fingerprint_hex)
          × ((u r).node_name ≡ r.node_name)
          × ((u r).address ≡ r.address)
          × ((u r).link_id ≡ r.link_id))
    → IsEntry id n a l (find (is_link_of f) ls)
    → IsEntry id n a l (find (is_link_of f) (update_first p u ls))
unfolding find update_first
update-IsEntry f p u [] id n a l k h = h
update-IsEntry f p u (r ∷ ls) id n a l k h =
    let (i, g, nn, aa, ll) = k r in
    elim (Bool-cases (is_link_of f r)) [
      | inl own ↦
          let mine : IsEntry id n a l (some r) =
            subst (λ (b : Bool). IsEntry id n a l (if b then some r else find (is_link_of f) ls))
              own h in
          let kept : text_eq (u r).fingerprint_hex f ≡ true = rw g own in
          elim (Bool-cases (p r)) [
            | inl hit ↦ rw (hit, kept) (i ∙ mine.0, nn ∙ mine.1, aa ∙ mine.2, ll ∙ mine.3)
            | inr far ↦ rw (far, own) mine
          ]
      | inr other ↦
          let rest : IsEntry id n a l (find (is_link_of f) ls) =
            subst (λ (b : Bool). IsEntry id n a l (if b then some r else find (is_link_of f) ls))
              other h in
          let kept : text_eq (u r).fingerprint_hex f ≡ false = rw g other in
          elim (Bool-cases (p r)) [
            | inl hit ↦ rw (hit, kept) rest
            | inr far ↦ rw (far, other) (update-IsEntry f p u ls id n a l k rest)
          ]
    ]

-- Not a registration of this peer, and not a removal under this id.
abbrev pub Spares : Text → ℕ → RegistryOp → Type 0
Spares f id (registers now g n a l) = text_eq g f ≡ false
Spares f id (removes g i) = (text_eq g f && i == id) ≡ false
Spares f id (drives now i) = Unit
Spares f id (drops listening g) = Unit

not_owner :
    (i id : ℕ) (n a : Text) (l : Option ℕ) (o : Option InboundLink)
    → IsEntry id n a l o
    → (i == id) ≡ false
    → owns_entry i o ≡ false
not_owner i id n a l none h e = absurd h
not_owner i id n a l (some r) h e = ground arith

registered :
    (now : ℕ) (f n a : Text) (l : Option ℕ) (s : Registry)
    → IsEntry s.next_id n a l (find (is_link_of f) (register_inbound_link now f n a l s).0.links)
unfolding register_inbound_link find
registered now f n a l s = rw (text_eq_refl f) (refl, refl, refl, refl)

remove-IsEntry :
    (f g : Text) (id i : ℕ) (n a : Text) (l : Option ℕ) (s : Registry)
    → IsEntry id n a l (find (is_link_of f) s.links)
    → (text_eq g f && i == id) ≡ false
    → IsEntry id n a l (find (is_link_of f) (remove_inbound_link g i s).links)
unfolding remove_inbound_link
remove-IsEntry f g id i n a l s h p = elim (Bool-cases (text_eq g f)) [
  | inr other ↦ elim (Bool-cases (owns_entry i (find (is_link_of g) s.links))) [
    | inl e ↦ rw (e, find-without_link f g s.links other) h
    | inr e ↦ rw e h
  ]
  | inl same ↦
      let fg = text_eq→eq g f same in
      let mine : IsEntry id n a l (find (is_link_of g) s.links) =
        subst (λ (x : Text). IsEntry id n a l (find (is_link_of x) s.links)) (sym fg) h in
      let apart : (i == id) ≡ false = ground arith in
      let never = not_owner i id n a l (find (is_link_of g) s.links) mine apart in rw never h
]

drop-IsEntry :
    (f g : Text) (id : ℕ) (listening : Bool) (n a : Text) (l : Option ℕ) (s : Registry)
    → IsEntry id n a l (find (is_link_of f) s.links)
    → IsEntry id n a l (find (is_link_of f) (drop_inbound_link listening g s).0.links)
unfolding drop_inbound_link
drop-IsEntry f g id listening n a l s h =
    elim (Bool-cases (any_link (find (is_link_of g) s.links) && listening)) [
      | inl e ↦ rw e (update-IsEntry f _ _ s.links id n a l (λ r. (refl, refl, refl, refl, refl)) h)
      | inr e ↦ rw e h
    ]

step-IsEntry :
    (f : Text) (id : ℕ) (n a : Text) (l : Option ℕ) (s : Registry) (op : RegistryOp)
    → IsEntry id n a l (find (is_link_of f) s.links)
    → Spares f id op
    → IsEntry id n a l (find (is_link_of f) (step s op).links)
unfolding step register_inbound_link note_inbound_activity find
step-IsEntry f id n a l s (registers now g m b k) h p = rw (p, find-without_link f g s.links p) h
step-IsEntry f id n a l s (removes g i) h p = remove-IsEntry f g id i n a l s h p
step-IsEntry f id n a l s (drives now i) h p =
    update-IsEntry f _ _ s.links id n a l (λ r. (refl, refl, refl, refl, refl)) h
step-IsEntry f id n a l s (drops listening g) h p = drop-IsEntry f g id listening n a l s h

steps-IsEntry :
    (f : Text) (id : ℕ) (n a : Text) (l : Option ℕ) (ops : List RegistryOp) (s : Registry)
    → IsEntry id n a l (find (is_link_of f) s.links)
    → All (Spares f id) ops
    → IsEntry id n a l (find (is_link_of f) (steps s ops).links)
unfolding steps
steps-IsEntry f id n a l [] s h p = h
steps-IsEntry f id n a l (op ∷ ops) s h (p, ps) =
    steps-IsEntry f id n a l ops (step s op) (step-IsEntry f id n a l s op h p) ps

-- A link that is registered stays, with the id, the name, the address and the epoch it was registered
-- with, through all later operations that neither register the same peer again nor remove it under
-- its own id: the cleanup of a predecessor does not remove it.
pub register_inbound_link-IsEntry :
    (now : ℕ) (f n a : Text) (l : Option ℕ) (s : Registry) (ops : List RegistryOp)
    → All (Spares f s.next_id) ops
    → IsEntry s.next_id n a l
        (find (is_link_of f) (steps (register_inbound_link now f n a l s).0 ops).links)
register_inbound_link-IsEntry now f n a l s ops p =
    steps-IsEntry f s.next_id n a l ops (register_inbound_link now f n a l s).0
      (registered now f n a l s) p
