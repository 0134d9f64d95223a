-- ===== src/Py.antt =====
-- What the service uses of Python: text, dictionaries, dynamic values, integers, exceptions.
pub mod Int
pub mod Str
pub mod Dict
pub mod Exec
pub mod Value
