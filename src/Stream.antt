-- ===== src/Stream.antt =====
-- What the sources use of `std::io` (`Write`, `Read`) and, as a parameter, the `byteorder` crate.
pub mod Defs
mod Laws
pub mod BigEndian
pub use Defs.{Sink, vec_sink, Room, Fits, shrink, Reader, Writer, ByteOrder}
unfoldable pub use Defs.{write, write_all, read_exact}
pub use Laws.*
