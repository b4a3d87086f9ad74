-- ===== src/Lib.antt =====
-- A verification library for the embedded database of this repository.
--
-- The program keeps tables of values in memory. A table (src/core/table.rs) stores its rows in one
-- flat vector, with a vector of identifiers and one of row versions beside it. While all rows were
-- inserted under automatic integers the identifier of a row is its position and `id_map` is empty;
-- the first custom identifier and the first deletion fill `id_map` and leave that mode. Texts are
-- interned in the table's string pool (src/core/value.rs). Indexes map the values of a column to
-- identifiers, or to positions if they are unique. Expressions (src/core/query.rs) are evaluated on
-- a row and planned as scans. The database (src/core/database.rs) holds the tables by name, a log of
-- versions (src/versioning/mod.rs) and a write-ahead log (src/storage/wal.rs), and joins two tables
-- through a hash multimap with a Bloom filter. The SQL extension (extensions/sql/src) reads
-- statements with a tokenizer and a recursive-descent parser (local_parser/), keeps them in a cache
-- by their text, and fills the placeholders of prepared ones (executor.rs).
--
-- Which file models what:
--   Base       lists over native numbers, texts as code points, the result of a call: a value, an
--              error or a panic, with the state it leaves (Base.Results)
--   Map        the hash maps, as association lists; a key is found by equality and hash together
--   Core       Value and its hash (Core.Hash), Id (as RowId) and StringPool; f64 (Core.Float), the
--              crate string-interner (Core.Pool) and the hasher are parameters, the first two with
--              their documented laws
--   Table      the records of table.rs, field for field (`cells` is the field `data`). Table.Read is
--              new, get_index, get_row_by_index and get; Table.Convert is validate_and_convert,
--              intern_row and the ways back; Table.Insert, Table.Flat, Table.Update, Table.Delete,
--              Table.Find, Table.Archive and Table.Export are the methods of those names.
--              Table.Valid is the invariant. The modules below each of them hold its theorems.
--   Query      Expr::evaluate, evaluate_with_row, is_true and plan; Query.Like is like_match
--   Database   the database, its methods that write (Database.Write), what they log
--              (Database.Log), recover_from_wal (Database.Recover), transactions, and snapshots
--              with the changes in place (Database.Snapshot); Database.Join is join and hash_join,
--              Database.Query is find, query, query_expr, execute_plan, insert_or_replace and
--              delete_batch, and Table.Spread is the loop that is given to threads in chunks
--   Sql        Sql.Ast is ast.rs, Sql.Keywords and Sql.Tokenizer are tokenizer.rs, Sql.Parser and
--              its children Parts and Statement are local_parser/mod.rs, Sql.Executor is the part of
--              executor.rs that counts and fills placeholders and keeps the cache; what runs one
--              statement is an argument there. Sql.Parser.Grammar is a grammar of expressions,
--              beside the parser
--   Tests      instances of the parameters, sample tables and runs
--
-- A `&mut self` method is a function from the table to the table and a result, so what a failing call
-- has changed before its error can be seen. A slice or an index out of range is a panic, which is a
-- result of its own (or `none` for methods that only read). Identifiers and versions wrap at 2 ^ 64 as
-- a release build does; lengths and positions are natural numbers, since a vector never has 2 ^ 64
-- items. A method of the database holds its locks for its whole run and is one step. The loop of
-- `like_match` has (|s| + 2) * (|pattern| + 2) rounds of fuel: a round moves the pattern's position
-- on or moves the place in the text that it comes back to. The parser has as much fuel as the text
-- has characters, and one more: each loop and each parenthesis takes a token, and a token takes a
-- character. A chain of `hash_join` has as many rounds as the build table has rows, each of which
-- stands in one chain. Every other loop is structural. The rest of the input that a tokenizer has
-- before it stands for `input`, `pos` and `ch` together. Two arrays of `hash_join` that hold row
-- numbers as i32 are functions into options, so its tables have less than 2 ^ 31 rows. A symbol of the
-- string pool is a natural number, so the panic of the crate once its 32-bit symbols run out is left
-- out.
--
-- Not modelled: the capacity hints, the texts of the error messages (the kind of a message and the
-- values in it are kept), file input and output, the stack that the recursion of the parser needs,
-- the execution of a single SQL statement (execute_statement), execute_prepared_batch, and the Node
-- bindings.
pub mod Base
pub mod Map
pub mod Core
pub mod Table
pub mod Query
pub mod Database
pub mod Sql
mod Tests
