-- ===== src/Json.antt =====
-- The JSON codec, c/struple_json.c with c/struple_json.h: text to elements and elements to text.
pub mod Text
pub mod Strings
pub mod Value
pub mod Parse
pub mod Magnitude
pub mod Encode
pub mod Numbers
pub mod Render
pub mod Integers
