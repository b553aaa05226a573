-- ===== src/Tests.antt =====
-- Tests of the definitions on inputs that can be followed in the source, and each theorem at one.
mod Rebalances
mod Listings
mod Options
mod Polls
mod Gates
mod Sessions
mod Fetches
mod Clients
mod Telemetry
mod Envelopes
mod Startups
mod Creations
mod Wirings
mod WiredSessions
