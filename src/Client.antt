-- ===== src/Client.antt =====
-- client/control_client.py: the control connection seen from the client.
pub mod Responses
pub mod Control
pub mod Exchange
