-- ===== src/Common.antt =====
-- pkg/common: the environment, the logger of the gRPC interceptors, and tracing scopes.
pub mod Env
pub mod Logging
pub mod Scope
pub mod Trace
