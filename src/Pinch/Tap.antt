-- ===== src/Pinch/Tap.antt =====
-- kvm-platform/src/mt_pinch.rs: the tap of one trackpad node, and a poll of all of them.
-- The events that a read of the node's file gives are an argument.
use thekvm.Prelude.{
  ℕ, ◌/◌, ◌≤◌, ◌≡◌, ◌≢◌, refl, Bool, true, false, not, ◌&&◌, Option, none, some, List, [], ◌∷◌,
  ◌==◌, if◌then◌else◌, is_none, max, arith, All, All-map, either, Bool-cases, inl, inr,
}
use mathlib.Core.Path.{subst}
use thekvm.Prelude.Int.{ℤ, pos, abs, ltb_ℤ, eqb_ℤ, eqb_ℤ_iff, pos_part}
use thekvm.Event.{InputEvent, pinch, pinch_end}
use thekvm.Pinch.{Point, PinchState, detents_per_span, feed_contacts}
use thekvm.Pinch.Frames.{IsTracking, feed_contacts-IsTracking, feed_contacts-IsReport}

abbrev pub ev_syn : ℕ
ev_syn = 0

abbrev pub ev_abs : ℕ
ev_abs = 3

abbrev pub syn_report : ℕ
syn_report = 0

abbrev pub abs_mt_slot : ℕ
abs_mt_slot = 0x2f

abbrev pub abs_mt_position_x : ℕ
abs_mt_position_x = 0x35

abbrev pub abs_mt_position_y : ℕ
abs_mt_position_y = 0x36

abbrev pub abs_mt_tracking_id : ℕ
abs_mt_tracking_id = 0x39

pub record RawEv : Type 0 where
  pub kind : ℕ
  pub code : ℕ
  pub value : ℤ

pub record TapDevice : Type 0 where
  pub contacts : List (ℤ × Point)  -- a BTreeMap by slot
  pub slot : ℤ
  pub machine : PinchState
  pub pending : Option InputEvent

-- `open_node` on a sensor of this span.
unfoldable pub open_node : ℤ → TapDevice
open_node span = record {
  contacts = [];
  slot = pos 0;
  machine = record {
    anchor = none;
    prev = none;
    prev_mid = none;
    acc = pos 0;
    units_per_detent = max (max (pos_part span) 1 / detents_per_span) 1;
    engaged = false;
    scroll_streak = 0;
  };
  pending = none;
}

-- `entry(slot).or_insert((0, 0))`, and a change of that entry.
unfoldable pub change_contact : ℤ → (Point → Point) → List (ℤ × Point) → List (ℤ × Point)
change_contact k f [] = (k, f (pos 0, pos 0)) ∷ []
change_contact k f ((j, p) ∷ m) =
    if eqb_ℤ k j
    then (j, f p) ∷ m
    else if ltb_ℤ k j
    then (k, f (pos 0, pos 0)) ∷ ((j, p) ∷ m)
    else (j, p) ∷ change_contact k f m

unfoldable pub remove_contact : ℤ → List (ℤ × Point) → List (ℤ × Point)
remove_contact k [] = []
remove_contact k ((j, p) ∷ m) = if eqb_ℤ k j then m else (j, p) ∷ remove_contact k m

abbrev pub points : List (ℤ × Point) → List Point
points [] = []
points ((j, p) ∷ m) = p ∷ points m

-- An `EV_ABS` event.
unfoldable pub place : TapDevice → ℕ → ℤ → TapDevice
unfolding change_contact remove_contact
place d code value =
    if code == abs_mt_slot
    then record d { slot = value }
    else if code == abs_mt_tracking_id
    then (if ltb_ℤ value (pos 0)
        then record d { contacts = remove_contact d.slot d.contacts }
        else record d { contacts = change_contact d.slot (λ p. p) d.contacts })
    else if code == abs_mt_position_x
    then record d { contacts = change_contact d.slot (λ p. (value, p.1)) d.contacts }
    else if code == abs_mt_position_y
    then record d { contacts = change_contact d.slot (λ p. (p.0, value)) d.contacts }
    else d

-- The event of a frame; none when it neither zooms nor ends.
unfoldable pub gesture_of : ℤ → Bool → Option InputEvent
gesture_of zoom ended =
    if not (eqb_ℤ zoom (pos 0)) then some (pinch zoom) else if ended then some pinch_end else none

-- A `SYN_REPORT`: the first event since the last poll stays.
unfoldable pub report : TapDevice → TapDevice
unfolding gesture_of
report d =
    let r = feed_contacts d.machine (points d.contacts) in
    let t = record d { machine = r.0 } in
    if is_none d.pending then record t { pending = gesture_of r.1.0 r.1.1 } else t

unfoldable pub ingest : TapDevice → RawEv → TapDevice
unfolding place report
ingest d event =
    if event.kind == ev_abs
    then place d event.code event.value
    else if event.kind == ev_syn && event.code == syn_report
    then report d
    else d

unfoldable pub drain : TapDevice → List RawEv → TapDevice
unfolding ingest
drain d [] = d
drain d (e ∷ events) = drain (ingest d e) events

abbrev pub unread : List (TapDevice × List RawEv) → List TapDevice
unread [] = []
unread ((d, events) ∷ devices) = d ∷ unread devices

-- A pending event is taken and ends the poll; otherwise the poll goes on.
unfoldable pub polled :
    Option InputEvent
    → TapDevice
    → List TapDevice
    → List TapDevice × Option InputEvent
    → List TapDevice × Option InputEvent
polled (some gesture) t later rest = (record t { pending = none } ∷ later, some gesture)
polled none t later rest = (t ∷ rest.0, rest.1)

-- Each device with the events that its file has; a device after one that reports is not read.
unfoldable pub poll : List (TapDevice × List RawEv) → List TapDevice × Option InputEvent
unfolding polled drain
poll [] = ([], none)
poll ((d, events) ∷ devices) =
    let t = drain d events in polled t.pending t (unread devices) (poll devices)

-- A zoom that is not 0 and within 1000 detents, or the end of a gesture.
abbrev pub IsGesture : Option InputEvent → Type 0
IsGesture none = Unit
IsGesture (some (pinch zoom)) = (zoom ≢ pos 0) × (abs zoom ≤ 120000)
IsGesture (some pinch_end) = Unit
IsGesture _ = ⊥

abbrev pub IsOrdered : List (ℤ × Point) → Type 0
IsOrdered [] = Unit
IsOrdered ((k, p) ∷ m) = All (λ (c : ℤ × Point). ltb_ℤ k c.0 ≡ true) m × IsOrdered m

abbrev pub IsTap : TapDevice → Type 0
IsTap d = IsTracking d.machine × IsOrdered d.contacts × IsGesture d.pending

All-change :
    (i k : ℤ) (f : Point → Point) (m : List (ℤ × Point))
    → ltb_ℤ i k ≡ true
    → All (λ (c : ℤ × Point). ltb_ℤ i c.0 ≡ true) m
    → All (λ (c : ℤ × Point). ltb_ℤ i c.0 ≡ true) (change_contact k f m)
unfolding change_contact
All-change i k f [] e h = (e, tt)
All-change i k f ((j, p) ∷ m) e (h, hs) = elim (Bool-cases (eqb_ℤ k j)) [
  | inl same ↦ rw same (h, hs)
  | inr other ↦ elim (Bool-cases (ltb_ℤ k j)) [
    | inl less ↦ rw (other, less) (e, (h, hs))
    | inr more ↦ rw (other, more) (h, All-change i k f m e hs)
  ]
]

trans_ℤ : (i j k : ℤ) → ltb_ℤ i j ≡ true → ltb_ℤ j k ≡ true → ltb_ℤ i k ≡ true
trans_ℤ i j k h g = ground arith

apart_ℤ : (k j : ℤ) → eqb_ℤ k j ≡ false → ltb_ℤ k j ≡ false → ltb_ℤ j k ≡ true
apart_ℤ k j h g = ground arith

change-IsOrdered :
    (k : ℤ) (f : Point → Point) (m : List (ℤ × Point))
    → IsOrdered m
    → IsOrdered (change_contact k f m)
unfolding change_contact
change-IsOrdered k f [] h = (tt, tt)
change-IsOrdered k f ((j, p) ∷ m) (h, hs) = elim (Bool-cases (eqb_ℤ k j)) [
  | inl same ↦ rw same (h, hs)
  | inr other ↦ elim (Bool-cases (ltb_ℤ k j)) [
    | inl less ↦ rw (other, less) ((less, All-map (λ c g. trans_ℤ k j c.0 less g) m h), (h, hs))
    | inr more ↦
        rw (other, more) (All-change j k f m (apart_ℤ k j other more) h, change-IsOrdered k f m hs)
  ]
]

All-remove :
    (i k : ℤ) (m : List (ℤ × Point))
    → All (λ (c : ℤ × Point). ltb_ℤ i c.0 ≡ true) m
    → All (λ (c : ℤ × Point). ltb_ℤ i c.0 ≡ true) (remove_contact k m)
unfolding remove_contact
All-remove i k [] h = tt
All-remove i k ((j, p) ∷ m) (h, hs) = elim (Bool-cases (eqb_ℤ k j)) [
  | inl same ↦ rw same hs
  | inr other ↦ rw other (h, All-remove i k m hs)
]

remove-IsOrdered : (k : ℤ) (m : List (ℤ × Point)) → IsOrdered m → IsOrdered (remove_contact k m)
unfolding remove_contact
remove-IsOrdered k [] h = tt
remove-IsOrdered k ((j, p) ∷ m) (h, hs) = elim (Bool-cases (eqb_ℤ k j)) [
  | inl same ↦ rw same hs
  | inr other ↦ rw other (All-remove j k m h, remove-IsOrdered k m hs)
]

place-IsTap : (d : TapDevice) (code : ℕ) (value : ℤ) → IsTap d → IsTap (place d code value)
unfolding place
place-IsTap d code value (h, o, g) =
    either IsTap (code == abs_mt_slot) _ _ (λ e. (h, o, g))
      λ e.
        either IsTap (code == abs_mt_tracking_id) _ _
          (λ f.
            either IsTap (ltb_ℤ value (pos 0)) _ _
              (λ l. (h, remove-IsOrdered d.slot d.contacts o, g))
              (λ l. (h, change-IsOrdered d.slot (λ p. p) d.contacts o, g)))
          λ f.
            either IsTap (code == abs_mt_position_x) _ _
              (λ x. (h, change-IsOrdered d.slot (λ p. (value, p.1)) d.contacts o, g))
              λ x.
                either IsTap (code == abs_mt_position_y) _ _
                  (λ y. (h, change-IsOrdered d.slot (λ p. (p.0, value)) d.contacts o, g))
                  (λ y. (h, o, g))

gesture_of-IsGesture :
    (zoom : ℤ) (ended : Bool) → abs zoom ≤ 120000 → IsGesture (gesture_of zoom ended)
unfolding gesture_of
gesture_of-IsGesture zoom ended h = elim (Bool-cases (eqb_ℤ zoom (pos 0))) [
  | inl e ↦ rw e (either IsGesture ended _ _ (λ x. tt) (λ x. tt))
  | inr e ↦ rw e ((λ z. let same = (eqb_ℤ_iff zoom (pos 0)).1 z in cc), h)
]

report-IsTap : (d : TapDevice) → IsTap d → IsTap (report d)
unfolding report
report-IsTap d (h, o, g) =
    let r = feed_contacts d.machine (points d.contacts) in
    let t = feed_contacts-IsTracking d.machine (points d.contacts) h in
    let z = feed_contacts-IsReport d.machine (points d.contacts) h in
    either IsTap (is_none d.pending) _ _ (λ e. (t, o, gesture_of-IsGesture r.1.0 r.1.1 z.0))
      (λ e. (t, o, g))

-- Every event of the kernel keeps the tap consistent: its machine as a frame keeps it, its contacts
-- in the order of their slots with no slot twice, and the pending event a zoom that is not 0 and
-- within 1000 detents or the end of a gesture.
pub ingest-IsTap : (d : TapDevice) (event : RawEv) → IsTap d → IsTap (ingest d event)
unfolding ingest
ingest-IsTap d event h =
    either IsTap (event.kind == ev_abs) _ _ (λ e. place-IsTap d event.code event.value h)
      λ e.
        either IsTap (event.kind == ev_syn && event.code == syn_report) _ _ (λ f. report-IsTap d h)
          (λ f. h)

pub drain-IsTap : (d : TapDevice) (events : List RawEv) → IsTap d → IsTap (drain d events)
unfolding drain
drain-IsTap d [] h = h
drain-IsTap d (e ∷ events) h = drain-IsTap (ingest d e) events (ingest-IsTap d e h)

-- A tap between two polls.
abbrev pub IsQuiet : TapDevice → Type 0
IsQuiet d = IsTap d × (d.pending ≡ none)

polled-IsQuiet :
    (o : Option InputEvent) (t : TapDevice) (later : List TapDevice)
    (rest : List TapDevice × Option InputEvent)
    → t.pending ≡ o
    → IsTap t
    → All IsQuiet later
    → All IsQuiet rest.0 × IsGesture rest.1
    → All IsQuiet (polled o t later rest).0 × IsGesture (polled o t later rest).1
unfolding polled
polled-IsQuiet none t later rest e h hs (rs, g) = (((h, e), rs), g)
polled-IsQuiet (some gesture) t later rest e (h, o, g) hs rs =
    ((((h, o, tt), refl), hs), subst IsGesture e g)

-- A poll of any devices with any events leaves every tap consistent and with no event pending, and
-- what it reports is a zoom that is not 0 and within 1000 detents or the end of a gesture.
pub poll-IsQuiet :
    (devices : List (TapDevice × List RawEv))
    → All IsQuiet (unread devices)
    → All IsQuiet (poll devices).0 × IsGesture (poll devices).1
unfolding poll
poll-IsQuiet [] h = (tt, tt)
poll-IsQuiet ((d, events) ∷ devices) ((h, q), hs) =
    let t = drain d events in
    polled-IsQuiet t.pending t (unread devices) (poll devices) refl (drain-IsTap d events h) hs
      (poll-IsQuiet devices hs)
