-- ===== src/Tests.antt =====
-- Runs of the definitions, and the theorems at concrete inputs.
mod Hooks
mod Entrance
mod Http
mod Client
mod Sessions
mod Sections
mod Members
mod Accounts
mod Journeys
mod Pages
