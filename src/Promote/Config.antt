-- ===== src/Promote/Config.antt =====
-- wip
