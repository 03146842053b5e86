-- ===== src/Shell.antt =====
-- assignment 1/myshell.c: the shell, which parses a line into commands, tokens and redirections and
-- runs them.
pub mod Commands
pub mod Execute
pub mod Main
pub mod Strings
mod Tests
pub mod Tokens
