-- ===== src/Sql.antt =====
-- What the statements of the program's SQL do: tables as lists of rows, and transactions of one
-- statement each between which other clients of the database may act.
pub mod Table
pub mod Exec
pub mod Rely
