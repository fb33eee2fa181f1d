-- ===== src/Transport.antt =====
-- node/transport: what the two transports share, the framing and the connections of TCP, and UDP.
pub mod Tcp
pub mod Udp
pub mod Pool
