-- ===== src/Sdk.antt =====
-- sdk: the agent that a program embeds.
pub mod Policy
pub mod Agent
pub mod Enricher
pub mod Panic
pub mod Integration
pub mod Collectors
