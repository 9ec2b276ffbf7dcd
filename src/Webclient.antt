-- ===== src/Webclient.antt =====
-- The library's client of Tema-3-PCom: its byte buffer, the exchange with the HTTP server, the
-- requests, the handlers of responses and the commands.
pub mod Buffer
pub mod Server
pub mod Requests
pub mod Responses
pub mod Forms
pub mod Commands
