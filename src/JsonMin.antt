-- ===== src/JsonMin.antt =====
-- source/json_min.c, the reader of JSON documents.
pub mod Scan
pub mod Value
pub mod Text
pub mod Utf8
pub mod Forward
pub mod Items
pub mod Bounds
mod Tests
