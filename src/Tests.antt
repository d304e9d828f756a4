-- ===== src/Tests.antt =====
-- Runs of the models at concrete inputs, and the theorems at inputs that meet their hypotheses.
mod Checksums
mod Scans
mod Policies
mod Pushes
mod Uploads
mod Enrollments
mod Ingestion
mod Logins
mod Sessions
mod Sensors
mod Pages
mod Settings
mod Deliveries
mod Certs
mod Commands
mod Starts
mod Joining
