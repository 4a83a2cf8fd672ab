-- ===== src/Storage.antt =====
-- marketplace/storage/hashfs.py: the content-addressed store of listings' contents.
pub mod Store
pub mod Names
pub mod Refine
pub mod RoundTrip
mod Tests
