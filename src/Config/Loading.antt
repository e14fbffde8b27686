-- ===== src/Config/Loading.antt =====
-- kvm-core/src/config.rs: which configurations are valid, and what a loaded one is.
use thekvm.Prelude.{
  ◌<◌, ◌≤◌, ◌≡◌, ◌⊎◌, inl, inr, refl, Bool, true, false, ◌&&◌, ◌||◌, Option, ltb, ◌==◌, All, any,
  any-All, All-any, is_some, arith, Bool-cases, Option-cases, sym, ◌∙◌,
}
use mathlib.Core.Path.{subst}
use thekvm.Prelude.Result.{Result, ok, err, ◌>>◌, fail_if, Result-cases}
use thekvm.Prelude.Text.{Text, trim, byte_length, is_control, is_empty}
use thekvm.Prelude.Deciding.{Decides, fail_if-Decides, seq-Decides, Decides-map}
use thekvm.Geometry.{double, mirror}
use thekvm.Layout.{Layout, validate}
use thekvm.Layout.Validity.{IsValid, validate_iff}
use thekvm.Config.{
  Config, ConfigError, empty_device_name, long_device_name, control_in_device_name,
  zero_listen_port, empty_auto_connect, auto_connect_of_receiver, bad_clipboard_limit, bad_layout,
  not_json, udp, is_client_only, is_blank, layout_checked, validate_config, clipboard_max_bytes,
  contains_text, style_field, migrated, load,
}

-- A device name that is neither blank nor longer than 128 bytes and has no control character, a port,
-- an automatic peer that is not blank and that a receiver does not have, a clipboard limit of 1 to
-- 16 MiB, and a valid layout.
abbrev pub IsConfig : Config → Type 0
IsConfig c =
    (is_empty (trim c.device_name) ≡ false)
    × (byte_length (trim c.device_name) ≤ 128)
    × All (λ x. is_control x ≡ false) (trim c.device_name)
    × (0 < c.listen_port)
    × (is_blank c.auto_connect_address ≡ false)
    × ((is_client_only c.mode && is_some c.auto_connect_address) ≡ false)
    × ((0 < c.clipboard_max_mb) × (c.clipboard_max_mb ≤ 16))
    × IsValid c.layout

passes : (b : Bool) (e : ConfigError) → Decides (fail_if b e) tt (b ≡ false)
passes b e = fail_if-Decides b e (λ h. h) (λ h. h)

layout_checked-Decides : (l : Layout) → Decides (layout_checked (validate l)) tt (IsValid l)
layout_checked-Decides l = elim (Result-cases (validate l)) [
  | inl (u, e) ↦ inl (rw e refl, (validate_iff l).0 e)
  | inr (x, e) ↦ inr (bad_layout x, rw e refl, λ v. let f = (validate_iff l).1 v in cc)
]

validate_config-Decides : (c : Config) → Decides (validate_config c) tt (IsConfig c)
unfolding validate_config
validate_config-Decides c =
    let name = trim c.device_name in
    let short : Decides (fail_if (ltb 128 (byte_length name)) long_device_name) tt
        (byte_length name ≤ 128) =
      fail_if-Decides _ long_device_name (λ h. ground arith) (λ h. ground arith) in
    let plain : Decides (fail_if (any is_control name) control_in_device_name) tt
        (All (λ x. is_control x ≡ false) name) =
      fail_if-Decides _ control_in_device_name (any-All is_control name)
        (All-any is_control name) in
    let port : Decides (fail_if (c.listen_port == 0) zero_listen_port) tt (0 < c.listen_port) =
      fail_if-Decides _ zero_listen_port (λ h. ground arith) (λ h. ground arith) in
    let limit : Decides
        (fail_if (c.clipboard_max_mb == 0 || ltb 16 c.clipboard_max_mb) bad_clipboard_limit) tt
        ((0 < c.clipboard_max_mb) × (c.clipboard_max_mb ≤ 16)) =
      fail_if-Decides _ bad_clipboard_limit (λ h. (ground arith, ground arith))
        (λ h. ground arith) in
    Decides-map (validate_config c) tt
      (λ (((((((a, b), d), e), f), g), h), i). (a, b, d, e, f, g, h, i))
      (λ (a, b, d, e, f, g, h, i). (((((((a, b), d), e), f), g), h), i))
      (seq-Decides _ _ tt
        (seq-Decides _ _ tt
          (seq-Decides _ _ tt
            (seq-Decides _ _ tt
              (seq-Decides _ _ tt
                (seq-Decides _ _ tt
                  (seq-Decides _ _ tt (passes (is_empty name) empty_device_name) short) plain)
                port)
              (passes (is_blank c.auto_connect_address) empty_auto_connect))
            (passes (is_client_only c.mode && is_some c.auto_connect_address)
              auto_connect_of_receiver))
          limit)
        (layout_checked-Decides c.layout))

-- The file named an entry style, or the configuration has the edge settings of an upgrade.
abbrev pub IsUpgraded : Text → Config → Type 0
IsUpgraded raw c =
    (contains_text raw style_field ≡ true)
    ⊎ ((c.edge_mode ≡ double) × (c.double_edge_style ≡ mirror))

migrated-IsUpgraded :
    (raw : Text) (c : Config) → ((migrated raw c).transport ≡ udp) × IsUpgraded raw (migrated raw c)
unfolding migrated
migrated-IsUpgraded raw c = elim (Bool-cases (contains_text raw style_field)) [
  | inl e ↦ rw e (refl, inl refl)
  | inr e ↦ rw e (refl, inr (refl, refl))
]

clipboard_max_bytes_lem :
    (c : Config) → (1048576 ≤ clipboard_max_bytes c) × (clipboard_max_bytes c ≤ 16777216)
unfolding clipboard_max_bytes
clipboard_max_bytes_lem c = ground arith

checked_value :
    (r : Result ConfigError (Unit {0})) (d c : Config) → (r >> ok d) ≡ ok c → (d ≡ c) × (r ≡ ok tt)
checked_value (ok u) d c e = (cc, refl)
checked_value (err x) d c e = cc

load-parts :
    (parse : Text → Option Config) (raw : Text) (c : Config)
    → load parse raw ≡ ok c
    → (p : Config) × ((migrated raw p ≡ c) × (validate_config (migrated raw p) ≡ ok tt))
unfolding load
load-parts parse raw c e = elim (Option-cases (parse raw)) [
  | inl g ↦ let f : load parse raw ≡ err not_json = rw (load, g) refl in cc
  | inr (p, g) ↦
      let f : load parse raw ≡ (validate_config (migrated raw p) >> ok (migrated raw p)) =
        rw (load, g) refl in
      (p, checked_value (validate_config (migrated raw p)) (migrated raw p) c (sym f ∙ e))
]

-- Whatever the coding and the file, a configuration that is loaded is valid and has the UDP
-- transport; unless the file names an entry style, it has both edges open and mirrored; its clipboard
-- limit is 1 MiB to 16 MiB in bytes.
pub load_lem :
    (parse : Text → Option Config) (raw : Text) (c : Config)
    → load parse raw ≡ ok c
    → IsConfig c
      × (c.transport ≡ udp)
      × IsUpgraded raw c
      × (1048576 ≤ clipboard_max_bytes c)
      × (clipboard_max_bytes c ≤ 16777216)
load_lem parse raw c e =
    let (p, (same, good)) = load-parts parse raw c e in
    let (transport, upgraded) =
      subst (λ (d : Config). (d.transport ≡ udp) × IsUpgraded raw d) same
        (migrated-IsUpgraded raw p) in
    let (low, high) = clipboard_max_bytes_lem c in
    let valid : IsConfig (migrated raw p) = elim (validate_config-Decides (migrated raw p)) [
      | inl (f, v) ↦ v
      | inr (x, f, never) ↦ cc
    ] in
    (subst IsConfig same valid, transport, upgraded, low, high)
