-- ===== src/Tests.antt =====
-- Runs of the modelled code at concrete inputs, and the theorems applied to them.
mod Wire
mod Ingest
mod Server
mod Storage
mod Hub
mod Client
mod Endpoints
mod Enrich
mod Agents
mod Building
