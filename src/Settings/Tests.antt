-- ===== src/Settings/Tests.antt =====
-- Trying the settings on a cancellation.
