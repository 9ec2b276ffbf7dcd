-- ===== src/Pubsub/Subscriber.antt =====
-- The subscriber of Tema-2-PCom: subscriber_funs.cpp and the loop of subscriber.cpp.
pub mod Decode
pub mod Commands
pub mod Loop
pub mod Requests
pub mod Printing
pub mod Examples
