-- ===== src/Errors.antt =====
-- internal/errors and internal/downstream/errors.go: the error values of the program.
pub mod Types
pub mod App
pub mod Downstream
pub mod Converter
pub mod Context
pub mod Logger
mod Tests
