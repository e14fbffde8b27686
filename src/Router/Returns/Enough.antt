-- ===== src/Router/Returns/Enough.antt =====
-- Pressure against an edge of the driven screen that leads home.
