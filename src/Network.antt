-- ===== src/Network.antt =====
-- src/network: addresses, path parsing, devices, tunnels, route metadata and its history.
pub mod Address
pub mod Diagnostics
pub mod Hops
pub mod Mtr
pub mod Devices
pub mod Metadata
pub mod History
pub mod Evidence
