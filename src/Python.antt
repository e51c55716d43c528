-- ===== src/Python.antt =====
-- What the runtime uses of Python: exceptions, methods that may raise, JSON values, stripped texts,
-- and a directory of state files.
pub mod Errors
pub mod Exec
pub mod Json
pub mod Text
pub mod Directory
pub mod Files
