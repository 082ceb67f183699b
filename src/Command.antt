-- ===== src/Command.antt =====
-- The commands: *_command.cpp, a module for each. `argv` holds the name of the command first, so
-- `argc` is its length.
pub mod Convert
pub mod Args
pub mod Answers
pub mod Set
pub mod Get
pub mod Append
pub mod Del
pub mod Clear
pub mod Merge
pub mod Len
pub mod TypeName
pub mod Import
pub mod Registry
pub mod Server
pub mod RoundTrip
