-- ===== src/Validate.antt =====
-- tools/oracle/internal/validate: the rules that the documents of the repository and its cases are held
-- to: the case files, and what the documents say of the areas and of the cases of the command line.
pub mod CliShape
pub mod Areas
pub mod Tree
