-- ===== src/Tests.antt =====
-- Tests of the definitions on concrete inputs, and the theorems at inputs that meet their
-- hypotheses.
mod Tables
mod Uploads
mod Requests
mod Tokens
mod Signing
mod Clients
mod Tools
mod Channels
mod Daemon
mod Wire
mod Backends
mod Commands
mod Fakes
mod Accepted
mod Serving
