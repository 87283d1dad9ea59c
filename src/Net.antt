-- ===== src/Net.antt =====
-- kernel/drivers/network: the parts of the network stack that keep state.
pub mod Route
pub mod Arp
pub mod Queue
pub mod Tcp
pub mod Ports
