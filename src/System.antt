-- ===== src/System.antt =====
-- transaction/dbtl and transaction/dbservice together: a number on its way from the log store to
-- the database service that has asked for it.
mod Tests
mod ChainTests
pub mod Start
pub mod Commit
pub mod Agreement
use grit.Dbtl.{Dbtl}
