-- ===== src/Stir.antt =====
-- The STIR/SHAKEN server (stir/): an HTTP interface that signs calls and verifies their passports.
pub mod Json
pub mod Documents
pub mod Written
pub mod Errors
pub mod Answers
pub mod Replies
pub mod Pieces
pub mod Handler
pub mod Accepted
pub mod Requests
pub mod Types
pub mod Variables
pub mod Passport
pub mod Checked
pub mod Verify
pub mod Identity
pub mod Passed
pub mod Says
pub mod Signed
pub mod Reads
pub mod Portions
pub mod Refusals
