-- ===== src/Checker.antt =====
-- internal/checker: output comparators, over files read as lists of bytes.
pub mod Scanner
pub mod Words
pub mod Compare
pub mod Token
pub mod Float
pub mod Exact
mod Examples
