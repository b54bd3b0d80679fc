-- ===== src/Auth.antt =====
-- Authentication of the MQTT messages between a runtime and the gateway (internal/mqttauth).
pub mod Replay
pub mod Signing
