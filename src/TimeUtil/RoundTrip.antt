-- ===== src/TimeUtil/RoundTrip.antt =====
-- `get_timestamp` on what `get_gmt_time_str` writes.
pub mod Digits
pub mod Names
pub mod Http
pub mod Local
pub mod Accepted
pub mod Fields
pub mod Sound
pub mod Tests
