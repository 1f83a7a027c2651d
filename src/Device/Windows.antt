-- ===== src/Device/Windows.antt =====
-- device/device_windows.go: the TUN device on Windows. Filters has the traffic filters that keep DNS
-- inside the TUN device, Session the switch of the enforcement with its engine sessions, Entries the
-- routes, Addresses the interface's address, Create CreateTUN. Config does nothing there.
pub mod Filters
pub mod Session
pub mod Entries
pub mod Addresses
pub mod Create
mod Tests
