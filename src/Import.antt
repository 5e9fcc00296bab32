-- ===== src/Import.antt =====
-- The import of initial data from a CSV file: apps/api/src/imports.
pub mod Csv
pub mod Rows
pub mod RoundTrip
pub mod Analysis
pub mod Apply
pub mod Agreement
mod Examples
pub mod Accepted
