-- ===== src/ConfigManager/Again.antt =====
-- Reading the same file again.
