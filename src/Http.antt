-- ===== src/Http.antt =====
-- The HTTP client: client_internal.py, http_client_base.py and http_client.py.
pub mod Quote
pub mod Transport
pub mod Base
pub mod Failure
pub mod Atomic
pub mod Request
pub mod Single
pub mod Headers
pub mod Client
