-- ===== src/Zend.antt =====
-- The Zend engine (php-src, not part of this repository): the values and the hash tables that
-- src/*.c work with. The hash table is an interface; the C code is modelled against its laws.
mod Values
mod Assoc
mod HashTable
pub mod Ordered
unfoldable pub use Values.*
unfoldable pub use Assoc.*
unfoldable pub use HashTable.*
