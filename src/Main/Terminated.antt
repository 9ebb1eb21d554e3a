-- ===== src/Main/Terminated.antt =====
-- How the program ends on a signal.
