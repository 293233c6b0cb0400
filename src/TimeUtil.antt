-- ===== src/TimeUtil.antt =====
-- coro_apps/util/time_util.h
pub mod Calendar
pub mod Parse
pub mod Print
pub mod Cache
pub mod RoundTrip
