-- ===== src/Brain.antt =====
-- apps/bzy-brain: the AI services.
pub mod Samples
mod Examples
pub mod Providers
pub mod Tools
pub mod Agents
pub mod Reasoning
pub mod Planning
pub mod Workflows
pub mod Memory
pub mod Embedding
pub mod Rag
