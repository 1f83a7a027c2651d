-- ===== src/Udp.antt =====
-- handler/remoteSocketHandler/udp: the UDP side of the forwarding.
pub mod State
pub mod Stack
pub mod Forwarder
