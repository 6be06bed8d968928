-- ===== src/Examples/Main.antt =====
-- `main_func` where libssh2 is busy.
