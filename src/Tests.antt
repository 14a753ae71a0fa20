-- ===== src/Tests.antt =====
-- The theorems at concrete inputs, where their hypotheses hold.
mod Data
mod Orders
mod Payments
mod Members
mod Supplies
mod Shifts
mod Requests
mod Plans
mod Accounts
mod Uploads
mod Deliveries
mod Offers
mod Versions
mod Signups
mod Staff
mod Tenancies
mod Sessions
