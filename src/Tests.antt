-- ===== src/Tests.antt =====
-- Concrete runs that exercise the results: two screens side by side, the local one on the left.
mod Data
mod RouterRuns
mod LayoutRuns
mod UdpRuns
mod WireRuns
mod ClipboardRuns
mod CaptureRuns
mod ConfigRuns
mod PinchRuns
mod PairingRuns
mod LeaseRuns
