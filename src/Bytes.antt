-- ===== src/Bytes.antt =====
-- The memory of a `std::vector<std::byte>` as a list of numbers, with what `memcpy`, `memmove`,
-- `resize` and a pointer with a length (a `span` or a `string_view`) do to it or read from it; and
-- the representation of unsigned integers as bytes.
mod Copy
mod Words
unfoldable pub use Copy.*
unfoldable pub use Words.*
