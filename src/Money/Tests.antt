-- ===== src/Money/Tests.antt =====
-- Trying the reading of money.
