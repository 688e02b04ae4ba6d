-- ===== src/Network.antt =====
-- ron/network: the messages between the laptop and its devices, and what it knows of them.
pub mod Protocol
pub mod Devices
pub mod Datagrams
pub mod Service
