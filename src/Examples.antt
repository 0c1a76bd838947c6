-- ===== src/Examples.antt =====
-- The theorems on concrete inputs.
mod Fixtures
mod Laptops
mod Stores
mod Server
mod Streams
mod Auth
mod Orders
mod Client
mod Samples
mod Service
mod LaptopClient
mod Programs
mod Start
mod Connected
mod Locks
mod Runs
