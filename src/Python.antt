-- ===== src/Python.antt =====
-- What the client uses of Python: text and bytes, exceptions, and a call that returns or raises.
pub mod Text
pub mod Utf8
pub mod Decimal
pub mod Base64
pub mod Json
pub mod Errors
