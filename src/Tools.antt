-- ===== src/Tools.antt =====
-- crates/tools: the tools that the model may call.
pub mod Registry
pub mod Executor
