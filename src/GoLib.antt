-- ===== src/GoLib.antt =====
-- What the program uses of Go's standard library: strconv and %d (Decimal, ParseInt), unicode/utf8
-- (Utf8), encoding/json on strings (Json), sort.Search (Search), io.Writer (Writer) and net/url (Url).
pub mod Decimal
pub mod Utf8
pub mod Json
pub mod Search
pub mod Writer
pub mod ParseInt
pub mod Url
