-- ===== src/Std.antt =====
-- What the program uses of Go's encoding/base64, encoding/hex, strconv and regexp.
pub mod Space
pub mod Base64
pub mod Decimal
pub mod Hex
pub mod Label
pub mod Path
