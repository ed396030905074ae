-- ===== src/Tests.antt =====
-- The theorems at concrete inputs, and runs of the definitions.
mod Dates
mod Jobs
mod Requests
mod Versions
mod Outside
mod Serving
mod Bridge
mod Amounts
