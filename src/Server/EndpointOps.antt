-- ===== src/Server/EndpointOps.antt =====
-- The endpoint decisions of server/strategy.go: which Endpoints and EndpointSlices of the control
-- plane are created or updated.
pub mod Decide
pub mod Plan
