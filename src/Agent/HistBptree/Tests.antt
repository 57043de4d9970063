-- ===== src/Agent/HistBptree/Tests.antt =====
-- The theorems on the leaf that the first pushes into a history make.
