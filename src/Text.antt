-- ===== src/Text.antt =====
-- What the program uses of the C library on characters: the tests of <ctype.h> in the C locale,
-- and the conversions %x, %08x and %d of sprintf. A `char` is its byte, 0 to 255.
pub mod Ctype
pub mod Decimal
pub mod Hex
pub mod Strings
