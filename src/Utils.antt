-- ===== src/Utils.antt =====
-- src/eden/utils: the retry of src/eden/utils/async_tools.py and the token bucket of
-- src/eden/utils/ratelimit.py.
pub mod Retry
pub mod Bucket
mod Examples
