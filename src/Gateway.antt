-- ===== src/Gateway.antt =====
-- src/gateway: the control plane.
pub mod Ingress
pub mod Client
