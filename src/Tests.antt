-- ===== src/Tests.antt =====
-- Runs on small files, and the theorems at concrete inputs.
mod Files
mod Headers
mod Scans
mod Graphs
mod Texts
mod Hashes
mod Runs
mod Readers
mod Natives
mod SmallRealm
mod Realms
mod Listings
mod Conversions
mod Carves
