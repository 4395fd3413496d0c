-- ===== src/Shell.antt =====
-- src/shell.c: the line editor and the commands of the shell.
pub mod Editor
pub mod Commands
