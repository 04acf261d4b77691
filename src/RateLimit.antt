-- ===== src/RateLimit.antt =====
-- src/middleware/rate_limit.rs: the limiter of API requests. Buckets holds the times that it
-- remembers and the decision on one key, Rules the choice of the rules and the middleware; History
-- and Verdicts prove what they decide.
pub mod Buckets
pub mod History
pub mod Bounds
pub mod Rules
pub mod Verdicts
pub mod Middleware
