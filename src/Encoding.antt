-- ===== src/Encoding.antt =====
-- The encodings of Go's standard library that page tokens go through (strconv and encoding/base64).
pub mod Decimal
pub mod Base64
