-- ===== src/Tests.antt =====
-- Runs at concrete inputs of the theorems of the other modules.
mod Data
mod Store
mod Billing
mod Box
mod Hub
mod Usage
mod Schema
mod Ws
mod Pairing
mod Workspace
mod Accounts
mod Keys
mod Tokens
mod Agent
mod Api
