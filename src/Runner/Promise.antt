-- ===== src/Runner/Promise.antt =====
-- `submit`, as its caller sees it.
