-- ===== src/StaticHosting.antt =====
-- src/services/static_hosting.rs: the URLs of hosted sites. A path is the list of its bytes in UTF-8.
pub mod Percent
pub mod Urls
pub mod RoundTrip
pub mod Resolve
pub mod Sites
