-- ===== src/Models.antt =====
-- internal/models: the tables of the plugin's database and the stores over them.
pub mod Rows
pub mod Database
pub mod Sorting
pub mod Bills
pub mod Instances
pub mod Accounts
pub mod Vendors
pub mod SimpleFin
pub mod Settings
pub mod Consistent
