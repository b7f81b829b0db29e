-- ===== src/Hitting/Blocked.antt =====
-- `blockSolution` of src/pme/util/hitting_set_finder.cpp: the valuations that are left.
