-- ===== src/Mqtt.antt =====
-- mqtt_exporter.go: the MQTT exporter.
pub mod Status
pub mod Topic
pub mod Handler
pub mod Monitor
pub mod Requests
pub mod Session
pub mod Login
pub mod Connection
pub mod Events
pub mod Threads
