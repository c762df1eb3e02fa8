-- ===== src/Text/Tests.antt =====
-- Trying the laws of SKUs.
