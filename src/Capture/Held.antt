-- ===== src/Capture/Held.antt =====
-- kvm-daemon/src/service.rs: the held keys of the capturing side against the events that it passes on.
use thekvm.Prelude.{
  ℕ, ◌+◌, ◌%◌, ◌^◌, ◌≡◌, refl, ap, ◌∙◌, Bool, true, false, Option, none, some, List, [], ◌∷◌, ◌==◌,
  ==_refl, if◌then◌else◌, either, arith, Bool-cases, inl, inr,
}
use thekvm.Event.{
  InputEvent, KeyEvent, key, mouse_move, mouse_button, wheel, smooth_wheel, pinch, pinch_end,
  is_release,
}
use thekvm.Capture.{
  CapturedState, CapturedEvent, rank, contains, usage_code, record_event, record_press,
  record_release, forwarded, is_throttled, next_event_id, event_passes_barrier,
}
use thekvm.Prelude.Dict.{get}
use thekvm.Capture.Sets.{
  IsSorted, contains-insert, contains-delete, insert-IsSorted, delete-IsSorted,
}

-- Whether a key is held after an event that reaches the other side.
abbrev pub holds_after : ℕ → Bool → InputEvent → Bool
holds_after usage held (key k) = if usage == k.usage then k.pressed else held
holds_after usage held _ = held

abbrev pub holds_passed : ℕ → Bool → Option CapturedEvent → Bool
holds_passed usage held none = held
holds_passed usage held (some e) = holds_after usage held e.event

-- The captured events with their instants, one after the other; the events that are passed on.
unfoldable pub captures :
    CapturedState → List (ℕ × InputEvent) → CapturedState × List (Option CapturedEvent)
unfolding record_event
captures s [] = (s, [])
captures s ((now, event) ∷ events) =
    let (next, out) = record_event now s event in
    let (last, outs) = captures next events in (last, out ∷ outs)

abbrev pub holds_all : ℕ → Bool → List (Option CapturedEvent) → Bool
holds_all usage held [] = held
holds_all usage held (out ∷ outs) = holds_all usage (holds_passed usage held out) outs

-- The sets are sorted.
abbrev pub IsOrdered : CapturedState → Type 0
IsOrdered s = IsSorted usage_code s.keys × IsSorted rank s.buttons

press-IsSorted :
    (now : ℕ) (s : CapturedState) (k : KeyEvent) → IsOrdered s → IsOrdered (record_press now s k).0
unfolding record_press forwarded next_event_id
press-IsSorted now s k (a, b) = elim (Bool-cases (contains usage_code k.usage s.keys)) [
  | inl e ↦ elim (Bool-cases (is_throttled now (get s.last_repeat k.usage))) [
    | inl f ↦ rw (e, f) (a, b)
    | inr f ↦ rw (e, f) (insert-IsSorted usage_code k.usage s.keys a, b)
  ]
  | inr e ↦ rw e (insert-IsSorted usage_code k.usage s.keys a, b)
]

release-IsSorted :
    (s : CapturedState) (k : KeyEvent) → IsOrdered s → IsOrdered (record_release s k).0
unfolding record_release forwarded next_event_id
release-IsSorted s k (a, b) = elim (Bool-cases (contains usage_code k.usage s.keys)) [
  | inl e ↦ rw e (delete-IsSorted usage_code k.usage s.keys a, b)
  | inr e ↦ rw e (a, b)
]

record_event-IsOrdered :
    (now : ℕ) (s : CapturedState) (event : InputEvent)
    → IsOrdered s
    → IsOrdered (record_event now s event).0
unfolding record_event forwarded next_event_id
record_event-IsOrdered now s (key k) h =
    either (λ (r : CapturedState × Option CapturedEvent). IsOrdered r.0) k.pressed
      (record_press now s k) (record_release s k) (λ e. press-IsSorted now s k h)
      (λ e. release-IsSorted s k h)
record_event-IsOrdered now s (mouse_button button true) (a, b) =
    (a, insert-IsSorted rank button s.buttons b)
record_event-IsOrdered now s (mouse_button button false) (a, b) =
    (a, delete-IsSorted rank button s.buttons b)
record_event-IsOrdered now s _ h = h

press-holds :
    (now : ℕ) (s : CapturedState) (k : KeyEvent) (usage : ℕ)
    → k.pressed ≡ true
    → contains usage_code usage (record_press now s k).0.keys
      ≡ holds_passed usage (contains usage_code usage s.keys) (record_press now s k).1
unfolding record_press forwarded next_event_id
press-holds now s k usage p = elim (Bool-cases (contains usage_code k.usage s.keys)) [
  | inl e ↦ elim (Bool-cases (is_throttled now (get s.last_repeat k.usage))) [
    | inl f ↦ rw (e, f) refl
    | inr f ↦ rw (e, f, contains-insert usage_code usage k.usage s.keys) (ground arith)
  ]
  | inr e ↦ rw (e, contains-insert usage_code usage k.usage s.keys) (ground arith)
]

contains-eq :
    (a b : ℕ) (keys : List ℕ) → a ≡ b → contains usage_code a keys ≡ contains usage_code b keys
contains-eq a b keys e = cc

release-holds :
    (s : CapturedState) (k : KeyEvent) (usage : ℕ)
    → k.pressed ≡ false
    → IsOrdered s
    → contains usage_code usage (record_release s k).0.keys
      ≡ holds_passed usage (contains usage_code usage s.keys) (record_release s k).1
unfolding record_release forwarded next_event_id
release-holds s k usage p (a, b) = elim (Bool-cases (contains usage_code k.usage s.keys)) [
  | inl e ↦ rw (e, contains-delete usage_code usage k.usage s.keys a) (ground arith)
  | inr e ↦ rw e refl
]

record_event-holds :
    (now : ℕ) (s : CapturedState) (event : InputEvent) (usage : ℕ)
    → IsOrdered s
    → contains usage_code usage (record_event now s event).0.keys
      ≡ holds_passed usage (contains usage_code usage s.keys) (record_event now s event).1
unfolding record_event forwarded next_event_id
record_event-holds now s (key k) usage h =
    either
      (λ (r : CapturedState × Option CapturedEvent).
        contains usage_code usage r.0.keys
        ≡ holds_passed usage (contains usage_code usage s.keys) r.1)
      k.pressed (record_press now s k) (record_release s k) (λ e. press-holds now s k usage e)
      (λ e. release-holds s k usage e h)
record_event-holds now s (mouse_move x y) usage h = refl
record_event-holds now s (mouse_button button pressed) usage h = refl
record_event-holds now s (wheel x y) usage h = refl
record_event-holds now s (smooth_wheel x y) usage h = refl
record_event-holds now s (pinch delta) usage h = refl
record_event-holds now s pinch_end usage h = refl

-- After any captured events, from a state whose sets are sorted, the sets are sorted and the keys of
-- the state are exactly those that the events passed on leave held, from the keys held before: no
-- key is stranded on the other side, and none that is held there is forgotten.
pub captures-holds_all :
    (events : List (ℕ × InputEvent)) (s : CapturedState) (usage : ℕ)
    → IsOrdered s
    → IsOrdered (captures s events).0
      × (contains usage_code usage (captures s events).0.keys
          ≡ holds_all usage (contains usage_code usage s.keys) (captures s events).1)
unfolding captures
captures-holds_all [] s usage h = (h, refl)
captures-holds_all ((now, event) ∷ events) s usage h =
    let next = (record_event now s event).0 in
    let (sorted, e) = captures-holds_all events next usage (record_event-IsOrdered now s event h) in
    (
      sorted,
      e
          ∙ ap (λ held. holds_all usage held (captures next events).1)
              (record_event-holds now s event usage h),
    )

-- The event that is passed on for a release, and the state that it leaves.
abbrev pub Released : CapturedState × Option CapturedEvent → KeyEvent → ℕ → Option ℕ → ℕ → Type 0
Released (s, out) k discarded barrier id =
    (out ≡ some (record { event = key (record k { repeat = false }); event_id = id }))
    × (event_passes_barrier id discarded barrier (is_release (key k)) ≡ true)
    × (contains usage_code k.usage s.keys ≡ false)

-- The release of a held key is passed on, marked as no repeat, under the next event id; it passes
-- every barrier, and leaves the key free.
pub release_passes :
    (now : ℕ) (s : CapturedState) (k : KeyEvent) (discarded : ℕ) (barrier : Option ℕ)
    → k.pressed ≡ false
    → contains usage_code k.usage s.keys ≡ true
    → IsOrdered s
    → Released (record_event now s (key k)) k discarded barrier ((s.last_event_id + 1) % 2 ^ 64)
unfolding record_event record_release forwarded next_event_id event_passes_barrier is_release
release_passes now s k discarded barrier p held (a, b) =
    rw (p, held, contains-delete usage_code k.usage k.usage s.keys a, ==_refl k.usage)
      (refl, refl, refl)
