-- ===== src/Ffa.antt =====
-- src/ffa: the FF-A proxy.
pub mod Ids
pub mod Memory
pub mod Stage2Walker
pub mod StubSpmc
pub mod Notifications
pub mod Mailbox
pub mod Descriptors
pub mod Proxy
