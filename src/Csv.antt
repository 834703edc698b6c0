-- ===== src/Csv.antt =====
-- The CSV of the program: `Parse` is the parser of backend/src/modules/channels/csv.ts, `Print` the
-- writer of backend/src/modules/analysis/csv.ts, `Fields` and `RoundTrip` prove them against each other.
pub mod Parse
pub mod Print
pub mod Fields
pub mod RoundTrip
mod Tests
