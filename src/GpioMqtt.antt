-- ===== src/GpioMqtt.antt =====
-- The MQTT publisher of the pins, examples/gpio_mqtt/src/lib.rs: packets, the session with the
-- broker, and the polling of the pins.
pub mod Packet
pub mod Reader
pub mod Session
pub mod Polling
pub mod Delivery
pub mod Online
pub mod Retry
pub mod Follower
pub mod Rounds
pub mod Following
mod Tests
