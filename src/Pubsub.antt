-- ===== src/Pubsub.antt =====
-- The publish/subscribe programs of Tema-2-PCom: the server, its protocol and the subscriber.
pub mod Message
pub mod Client
pub mod Proto
pub mod Server
pub mod Subscriber
pub mod Exchange
pub mod Setup
