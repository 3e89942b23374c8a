-- ===== src/Tests.antt =====
-- The theorems applied to concrete values, and runs of the client against a small server.
mod Clients
mod Credentials
mod Data
mod Paging
mod Paths
mod Policies
mod Requests
mod Resources
mod Retries
mod Services
mod Runs
mod Served
mod Testutil
