-- ===== src/Url.antt =====
-- What the source uses of urllib.parse: the parts of a URL, and percent-encoding.
pub mod Utf8
pub mod Quote
pub mod Split
