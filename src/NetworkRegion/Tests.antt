-- ===== src/NetworkRegion/Tests.antt =====
-- Regions named by numbers.
