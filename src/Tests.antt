-- ===== src/Tests.antt =====
-- The theorems on concrete inputs.
mod Requests
mod Money
mod Rules
mod Services
mod Accounts
mod Contact
mod Web
mod Sockets
mod Advice
mod Offers
mod Profiles
mod Admin
