-- ===== src/Protocol/Reaching.antt =====
-- How a queue reaches its managers when one of their sessions is lost.
use fxp_one.Queue.Types.{Queue}
use fxp_one.Engine.World.{World}
