-- ===== src/Router/Returns/Pressure.antt =====
-- What a press needs at an edge of the driven screen that ends the drive, in plain terms: how much the
-- run has saved, and how long it is held.
use thekvm.Prelude.{
  ℕ, ◌+◌, ◌-◌, ◌≤◌, ◌≡◌, ◌≢◌, ◌↔◌, ◌⊎◌, refl, sym, ap, ◌∙◌, min, Bool, true, false, ◌||◌, Option,
  none, some, leb, ◌==◌, if◌then◌else◌, inl, inr, arith, Bool-cases,
}
use mathlib.Core.Path.{subst}
use thekvm.Geometry.{Edge, is_edge}
use thekvm.Router.{EdgeRouter, elapsed}
use thekvm.Router.Drive.{unarmed_entry, extend_run, held_long, return_threshold}
use thekvm.Router.Returns.Presses.{IsEnough}
use thekvm.Router.Returns.Facing.{edge_eq_iff}

-- 20 pixels on an armed drive; on an unarmed one 64, of which one event gives at most 63.
abbrev pub IsLong : Bool → ℕ → ℕ → Type 0
IsLong true saved overflow = 20 ≤ saved + overflow
IsLong false saved overflow = 64 ≤ saved + min overflow 63

-- The run began at least the configured time ago.
abbrev pub IsHeld : ℕ → ℕ → Option ℕ → Type 0
IsHeld now hold since = (hold ≡ 0) ⊎ ((t : ℕ) × (since ≡ some t) × (hold ≤ now - t))

-- The run against the edge goes on with this press, or begins with it.
abbrev pub IsRun : ℕ → EdgeRouter → Edge → ℕ → Type 0
IsRun now r edge overflow =
    ((r.return_edge ≡ some edge)
      × IsLong r.return_armed r.return_edge_accum overflow
      × IsHeld now r.return_hold r.return_run_since)
    ⊎ ((r.return_edge ≢ some edge) × IsLong r.return_armed 0 overflow × (r.return_hold ≡ 0))

-- 64 pixels in all past the edge that the drive came through, before it has settled; a run past any
-- other edge.
abbrev pub IsPressed : ℕ → EdgeRouter → Edge → ℕ → Type 0
IsPressed now r edge overflow =
    ((r.entry_edge ≡ some edge) × (r.return_armed ≡ false) × (64 ≤ r.return_accum + overflow))
    ⊎ (((r.entry_edge ≢ some edge) ⊎ (r.return_armed ≡ true)) × IsRun now r edge overflow)

some_inj : (d e : Edge) → some d ≡ some e → d ≡ e
some_inj d e h = cc

is_edge_iff : (o : Option Edge) (e : Edge) → (is_edge o e ≡ true) ↔ (o ≡ some e)
is_edge_iff none e = (λ h. cc, λ h. cc)
is_edge_iff (some d) e =
    (λ h. ap some ((edge_eq_iff d e).0 h), λ h. (edge_eq_iff d e).1 (some_inj d e h))

is_edge_no : (o : Option Edge) (e : Edge) → is_edge o e ≡ false → o ≢ some e
is_edge_no o e h f = let g = (is_edge_iff o e).1 f in cc

no_is_edge : (o : Option Edge) (e : Edge) → o ≢ some e → is_edge o e ≡ false
no_is_edge o e h = elim (Bool-cases (is_edge o e)) [
  | inl g ↦ absurd (h ((is_edge_iff o e).0 g))
  | inr g ↦ g
]

IsHeld-since :
    (now hold : ℕ) (o : Option ℕ)
    → (hold == 0 || (elim o [ none ↦ false | some t ↦ leb hold (elapsed now t) ])) ≡ true
    → IsHeld now hold o
IsHeld-since now hold none h = inl (ground arith)
IsHeld-since now hold (some t) h = elim (Bool-cases (hold == 0)) [
  | inl e ↦ inl (ground arith)
  | inr e ↦ inr (t, refl, ground arith)
]

since_held :
    (now hold : ℕ) (o : Option ℕ)
    → IsHeld now hold o
    → (hold == 0 || (elim o [ none ↦ false | some t ↦ leb hold (elapsed now t) ])) ≡ true
since_held now hold o (inl e) = rw e refl
since_held now hold o (inr (t, e, long)) = rw e (ground arith)

abbrev credit : Bool → ℕ → ℕ
credit armed overflow = if armed then overflow else min overflow 63

IsLong-iff :
    (armed : Bool) (saved overflow : ℕ)
    → ((if armed then 20 else 64) ≤ saved + credit armed overflow) ↔ IsLong armed saved overflow
IsLong-iff true saved overflow = (λ h. h, λ h. h)
IsLong-iff false saved overflow = (λ h. h, λ h. h)

module _ (now : ℕ) (r : EdgeRouter) (edge : Edge) (overflow : ℕ) where
  abbrev test : Bool
  test =
      r.return_hold == 0
      || (elim r.return_run_since [ none ↦ false | some t ↦ leb r.return_hold (elapsed now t) ])

  abbrev goes_on : EdgeRouter
  goes_on = record r { return_edge_accum = r.return_edge_accum + credit r.return_armed overflow }

  abbrev begins : EdgeRouter
  begins = record r {
    return_edge = some edge;
    return_edge_accum = credit r.return_armed overflow;
    return_run_since = some now;
  }

  extend_on : is_edge r.return_edge edge ≡ true → extend_run now r edge overflow ≡ goes_on
  unfolding extend_run
  extend_on q = ap (λ b. if b then goes_on else begins) q

  extend_new : is_edge r.return_edge edge ≡ false → extend_run now r edge overflow ≡ begins
  unfolding extend_run
  extend_new q = ap (λ b. if b then goes_on else begins) q

  run_on :
      is_edge r.return_edge edge ≡ true
      → ((extend_run now r edge overflow).return_edge_accum
          ≡ r.return_edge_accum + credit r.return_armed overflow)
        × (held_long now (extend_run now r edge overflow) ≡ test)
  unfolding held_long
  run_on q =
      let e = extend_on q in (ap (λ (x : EdgeRouter). x.return_edge_accum) e, ap (held_long now) e)

  run_new :
      is_edge r.return_edge edge ≡ false
      → ((extend_run now r edge overflow).return_edge_accum ≡ 0 + credit r.return_armed overflow)
        × (held_long now (extend_run now r edge overflow)
            ≡ (r.return_hold == 0 || leb r.return_hold (elapsed now now)))
  unfolding held_long
  run_new q =
      let e = extend_new q in
      (ap (λ (x : EdgeRouter). x.return_edge_accum) e ∙ omega arith, ap (held_long now) e)

  enough-IsRun :
      return_threshold r ≤ (extend_run now r edge overflow).return_edge_accum
      → held_long now (extend_run now r edge overflow) ≡ true
      → IsRun now r edge overflow
  unfolding return_threshold
  enough-IsRun long held = elim (Bool-cases (is_edge r.return_edge edge)) [
    | inl q ↦
        let (saved, same) = run_on q in
        inl (
          (is_edge_iff r.return_edge edge).0 q,
          (IsLong-iff r.return_armed r.return_edge_accum overflow).0
              (subst (λ n. (if r.return_armed then 20 else 64) ≤ n) saved long),
          IsHeld-since now r.return_hold r.return_run_since (sym same ∙ held),
        )
    | inr q ↦
        let (saved, same) = run_new q in
        inr (
          is_edge_no r.return_edge edge q,
          (IsLong-iff r.return_armed 0 overflow).0
              (subst (λ n. (if r.return_armed then 20 else 64) ≤ n) saved long),
          ground arith,
        )
  ]

  run-enough :
      IsRun now r edge overflow
      → (return_threshold r ≤ (extend_run now r edge overflow).return_edge_accum)
        × (held_long now (extend_run now r edge overflow) ≡ true)
  unfolding return_threshold
  run-enough (inl (q, long, held)) =
      let (saved, same) = run_on ((is_edge_iff r.return_edge edge).1 q) in
      (
        subst (λ n. (if r.return_armed then 20 else 64) ≤ n) (sym saved)
            ((IsLong-iff r.return_armed r.return_edge_accum overflow).1 long),
        same ∙ since_held now r.return_hold r.return_run_since held,
      )
  run-enough (inr (q, long, none_asked)) =
      let (saved, same) = run_new (no_is_edge r.return_edge edge q) in
      (
        subst (λ n. (if r.return_armed then 20 else 64) ≤ n) (sym saved)
            ((IsLong-iff r.return_armed 0 overflow).1 long),
        same ∙ ground arith,
      )

  unarmed_parts :
      unarmed_entry r edge ≡ true → (r.entry_edge ≡ some edge) × (r.return_armed ≡ false)
  unfolding unarmed_entry
  unarmed_parts h =
      let q : is_edge r.entry_edge edge ≡ true = ground arith in
      ((is_edge_iff r.entry_edge edge).0 q, ground arith)

  settled_parts :
      unarmed_entry r edge ≡ false → (r.entry_edge ≢ some edge) ⊎ (r.return_armed ≡ true)
  unfolding unarmed_entry
  settled_parts h = elim (Bool-cases (is_edge r.entry_edge edge)) [
    | inl q ↦ inr (ground arith)
    | inr q ↦ inl (is_edge_no r.entry_edge edge q)
  ]

  settled_entry :
      ((r.entry_edge ≢ some edge) ⊎ (r.return_armed ≡ true)) → unarmed_entry r edge ≡ false
  unfolding unarmed_entry
  settled_entry (inl other) = rw (no_is_edge r.entry_edge edge other) refl
  settled_entry (inr armed) = ground arith

  pub IsEnough-iff : IsEnough now r edge overflow ↔ IsPressed now r edge overflow
  unfolding unarmed_entry
  IsEnough-iff = (
    λ h. elim h [
      | inl (entry, long) ↦ let (same, unarmed) = unarmed_parts entry in inl (same, unarmed, long)
      | inr (other, long, held) ↦ inr (settled_parts other, enough-IsRun long held)
    ],
    λ h. elim h [
      | inl (entry, unarmed, long) ↦
          let q = (is_edge_iff r.entry_edge edge).1 entry in inl (rw (q, unarmed) refl, long)
      | inr (other, run) ↦
          let (long, held) = run-enough run in inr (settled_entry other, long, held)
    ],
  )
