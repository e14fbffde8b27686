-- ===== src/Tests/ConfigRuns.antt =====
-- A run of loading: an old file, which the coding reads as a configuration of the pair of screens.
use thekvm.Prelude.{◌≡◌, ◌≤◌, refl, true, false, none, some}
use thekvm.Prelude.Text.{codes, trim_start, is_whitespace, utf8_width}
use thekvm.Geometry.{single, double, mirror, fixed_left}
use thekvm.Config.{Config, bidirectional, quic, udp, clipboard_max_bytes, load}
use thekvm.Config.Loading.{IsConfig, IsUpgraded, load_lem}
use thekvm.Tests.Data.{pair}

abbrev old_file : Config
old_file = record {
  device_name = codes "desk";
  listen_port = 42110;
  mode = bidirectional;
  transport = quic;
  edge_mode = single;
  layout = pair;
  allow_lock_screen_control = false;
  auto_connect_address = none;
  clipboard_enabled = true;
  clipboard_max_mb = 2;
  reverse_scroll = false;
  auto_discover = true;
  double_edge_style = fixed_left;
}

abbrev upgraded : Config
upgraded = record old_file { transport = udp; edge_mode = double; double_edge_style = mirror }

load_lem_example :
    IsConfig upgraded
    × (upgraded.transport ≡ udp)
    × IsUpgraded (codes "edge_mode") upgraded
    × (1048576 ≤ clipboard_max_bytes upgraded)
    × (clipboard_max_bytes upgraded ≤ 16777216)
unfolding load trim_start is_whitespace utf8_width
load_lem_example = load_lem (λ raw. some old_file) (codes "edge_mode") upgraded refl
