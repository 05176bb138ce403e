-- ===== src/Module.antt =====
-- What the modules declare and how the processor collects it (src/module).
pub mod Declare
pub mod Collect
mod Examples
