-- ===== src/Controller.antt =====
-- internal/controller: keeps gost and sing-box in step with the panel's nodes and counts traffic.
pub mod Sampler
pub mod Traffic
pub mod Engine
