-- ===== src/Config.antt =====
-- kvm-core/src/config.rs: the configuration, its validation, and what loading makes of a file. The
-- JSON coding is a library's: a parameter.
pub mod Loading
use thekvm.Prelude.{
  ℕ, ◌*◌, Bool, true, false, ◌&&◌, ◌||◌, Option, none, some, List, [], ◌∷◌, ◌++◌, ltb, ◌==◌, min,
  max, if◌then◌else◌, any, is_some,
}
use thekvm.Prelude.Result.{Result, ok, err, ◌>>=◌, ◌>>◌, fail_if}
use thekvm.Prelude.Text.{Text, codes, trim, byte_length, is_control, is_empty}
use thekvm.Geometry.{EdgeMode, double, DoubleEdgeStyle, mirror}
use thekvm.Layout.{Layout, LayoutError, validate}

abbrev pub max_device_name_bytes : ℕ
max_device_name_bytes = 128

abbrev pub max_clipboard_max_mb : ℕ
max_clipboard_max_mb = 16

pub data Mode : Type 0 where
  bidirectional server_client client_only : Mode

pub data TransportProtocol : Type 0 where
  quic udp : TransportProtocol

pub record Config : Type 0 where
  pub device_name : Text
  pub listen_port : ℕ
  pub mode : Mode
  pub transport : TransportProtocol
  pub edge_mode : EdgeMode
  pub layout : Layout
  pub allow_lock_screen_control : Bool
  pub auto_connect_address : Option Text
  pub clipboard_enabled : Bool
  pub clipboard_max_mb : ℕ
  pub reverse_scroll : Bool
  pub auto_discover : Bool
  pub double_edge_style : DoubleEdgeStyle

-- The errors, one for each message of the source.
pub data ConfigError : Type 0 where
  empty_device_name long_device_name control_in_device_name : ConfigError
  zero_listen_port empty_auto_connect auto_connect_of_receiver bad_clipboard_limit : ConfigError
  bad_layout : LayoutError → ConfigError
  not_json : ConfigError

abbrev pub is_client_only : Mode → Bool
is_client_only client_only = true
is_client_only _ = false

abbrev pub is_blank : Option Text → Bool
is_blank none = false
is_blank (some address) = is_empty (trim address)

abbrev pub layout_checked : Result LayoutError (Unit {0}) → Result ConfigError (Unit {0})
layout_checked (ok u) = ok u
layout_checked (err e) = err (bad_layout e)

unfoldable pub validate_config : Config → Result ConfigError (Unit {0})
unfolding trim byte_length is_control any validate
validate_config c =
    let device_name = trim c.device_name in
    fail_if (is_empty device_name) empty_device_name
    >> fail_if (ltb max_device_name_bytes (byte_length device_name)) long_device_name
    >> fail_if (any is_control device_name) control_in_device_name
    >> fail_if (c.listen_port == 0) zero_listen_port
    >> fail_if (is_blank c.auto_connect_address) empty_auto_connect
    >> fail_if (is_client_only c.mode && is_some c.auto_connect_address) auto_connect_of_receiver
    >> fail_if (c.clipboard_max_mb == 0 || ltb max_clipboard_max_mb c.clipboard_max_mb)
        bad_clipboard_limit
    >> layout_checked (validate c.layout)

unfoldable pub clipboard_max_bytes : Config → ℕ
clipboard_max_bytes c = min (max c.clipboard_max_mb 1) max_clipboard_max_mb * 1024 * 1024

-- `str::starts_with` and `str::contains`
unfoldable pub starts_with : Text → Text → Bool
starts_with s [] = true
starts_with [] (d ∷ p) = false
starts_with (c ∷ s) (d ∷ p) = c == d && starts_with s p

unfoldable pub contains_text : Text → Text → Bool
unfolding starts_with
contains_text [] p = starts_with [] p
contains_text (c ∷ s) p = starts_with (c ∷ s) p || contains_text s p

abbrev pub style_field : Text
style_field = 34 ∷ (codes "double_edge_style" ++ (34 ∷ []))

-- What the transport and the edge fields of a file become.
unfoldable pub migrated : Text → Config → Config
unfolding contains_text
migrated raw c =
    let cemented : Config = record c { transport = udp } in
    if contains_text raw style_field
    then cemented
    else record cemented { edge_mode = double; double_edge_style = mirror }

-- The file as it is read.
unfoldable pub load : (Text → Option Config) → Text → Result ConfigError Config
unfolding migrated validate_config
load parse raw = elim (parse raw) [
  | none ↦ err not_json
  | some c ↦ validate_config (migrated raw c) >> ok (migrated raw c)
]
