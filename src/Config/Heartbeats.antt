-- ===== src/Config/Heartbeats.antt =====
-- Whom the heartbeater of config.cc removes.
use distributed_system_lab.Base.Bytes.{Bytes, bytes_key}
use distributed_system_lab.Config.{Config}
