-- ===== src/Store.antt =====
-- relay/internal/store: the tables, the statements on them, and one module for each DAO.
pub mod Tables
pub mod Action
pub mod Boxes
pub mod Turns
pub mod Billing
pub mod Schema
pub mod Transaction
pub mod Devices
pub mod Users
pub mod ApiKeys
