-- ===== src/Python.antt =====
-- What the source uses of Python's standard library: integers, text, sorted(), exceptions, datetime
-- and ipaddress values, and a type of the values that a field without a declared type can hold.
pub mod Int
pub mod Text
pub mod Sorted
pub mod Exceptions
pub mod Datetime
pub mod Address
pub mod Value
pub mod Keys
pub mod Reading
pub mod FilePath
