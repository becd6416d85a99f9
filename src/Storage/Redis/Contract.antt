-- ===== src/Storage/Redis/Contract.antt =====
-- storage/redis/redis.go: the store in Redis keeps the contract of a hard purge.
use titip.Prelude.{List}
use titip.Text.{Text}
