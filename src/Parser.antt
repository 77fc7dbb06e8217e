-- ===== src/Parser.antt =====
-- Scalar/server/src/parser: reading a file record by record, and handing its data to the graphs.
pub mod Frame
pub mod Cache
pub mod Loop
pub mod Events
pub mod Resume
