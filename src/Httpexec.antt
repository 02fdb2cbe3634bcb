-- ===== src/Httpexec.antt =====
-- tools/oracle/internal/httpexec: how a case becomes an HTTP request.
pub mod PathEncoding
pub mod Spec
