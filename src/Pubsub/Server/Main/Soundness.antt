-- ===== src/Pubsub/Server/Main/Soundness.antt =====
-- Whole rounds of `main` of server.cpp in which `send` may fail.
use teme_pcom_anul_2_sem.Pubsub.Server.State.{Server}
