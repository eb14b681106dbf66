-- ===== src/Tests.antt =====
-- Concrete instances of the parameters, and the theorems applied to them.
mod Event
mod Artifact
mod Authority
mod Cas
mod Cmd
mod Postgres
mod Printed
mod OpenRuns
mod Runs
mod Server
mod Store
