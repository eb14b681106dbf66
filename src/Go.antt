-- ===== src/Go.antt =====
-- What the program uses of Go's standard library, as far as it is plain computation: unicode/utf8,
-- unicode and strings (Utf8, Space, Text), encoding/json (Json), flag (Flag), and time (Time).
pub mod Flag
pub mod Time
pub mod Utf8
pub mod Space
pub mod Json
pub mod Text
