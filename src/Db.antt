-- ===== src/Db.antt =====
-- The database that the handlers query through SeaORM, and the monad of the handlers. The ORM and
-- the server behind it are not part of the repository: `Interface` names the calls that the code
-- makes and what it relies on, and `Memory` shows that a plain list of rows meets that.
pub mod Interface
pub mod Handler
pub mod Rules
pub mod Rows
pub mod Members
pub mod Memory
