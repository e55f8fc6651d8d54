-- ===== src/Sandbox.antt =====
-- internal/sandbox: what the extraction of a submitted archive may write (tarball.go), and which archives
-- of screened images are accepted (image.go).
pub mod SafeJoin
pub mod Extract
pub mod Limits
pub mod Image
mod Examples
