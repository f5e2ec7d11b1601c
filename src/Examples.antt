-- ===== src/Examples.antt =====
-- A small company in memory, a life of one shipment in it, and each theorem at a point.
mod Setup
mod Lifecycle
mod Views
mod SignIns
mod Sockets
mod Notices
mod Passwords
mod Registers
mod Maps
mod Controls
mod Requests
mod Scans
mod CookieTexts
mod Tokens
