-- ===== src/Term.antt =====
-- cli-term.c: the terminal, its line editor and its history.
pub mod Buffer
pub mod Edit
pub mod Screen
pub mod Words
pub mod History
pub mod Session
mod Tests
