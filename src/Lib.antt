-- ===== src/Lib.antt =====
-- The SQL database: server/parser turns the bytes of a query into tokens and these into a command,
-- executor runs commands on the tables of storage, whose columns may have an index. The files:
--
--   Base       lists, results of code that may throw, bytes, integers, and `std::stoi`, `std::stoll`.
--   Sql        server/parser. Sql/Token, Sql/Keyword and Sql/Lexer are include/lexer.h and
--              src/lexer.cpp: a lexer's state is the input left and the line, and each `read...`
--              method is a function of it. Sql/Ast is include/parser.h; Sql/Cursor, Sql/Conditions
--              and Sql/Parser are src/parser.cpp: a parser's state is the tokens left, and a method
--              is a function from them to a result and the tokens left, or an exception.
--   Executor   executor/src/async_executor.cpp. Executor/Async has the calls of clients, the worker
--              thread and the destructor as events on one state; an event is what one of them does
--              while it holds the mutex, and the events come in any order in which they can. Ids,
--              times and what the query handler does come with an event. Executor/Classifier is
--              src/query_classifier.cpp.
--              RequestId, Api, Json and Service are src/request_types.cpp, request_api.cpp,
--              json_response.cpp and executor_service.cpp, with the draws of the random engine and
--              the time as arguments.
--   Engine     executor/src/query_engine.cpp. Engine/Condition is `evaluate_condition`,
--              Engine/Comparison `evaluate_simple_condition`, over any match of a regular
--              expression, Engine/Candidates `collect_candidate_rows`, Engine/Json the text of a
--              row, and Engine/Statements the statements: each is an action of Base/Action on one
--              table, which Statements/Execute runs on the databases, with the calls of the file
--              system as a parameter that may throw.
--   Index      index. Index/Key and Index/Node are the keys and the pages of
--              src/bstarplus_tree_index.cpp; a page being written is the bytes before the offset,
--              and one being read those from the offset on. Index/Disk is src/DiskManager.cpp, a
--              file as a header and a list of pages. Index/Tree is `BStarPlusIndex`, the file and
--              the metadata in memory: the searches in Tree, `rebuild_internal_keys`,
--              `propagate_subtree_min_change` and the node counts in Tree/Nodes, the loans between
--              siblings and `insert_into_parent` in Tree/Split, `split_leaf` and `split_internal` in
--              Tree/Grow, the repair of nodes with too few keys in Tree/Underflow, `insert` and
--              `erase` in Tree/Update; what changes the index is an action that leaves a state also
--              where it throws. Index/Entries is the abstract view, a sorted list of keys with
--              records, and Tree/Shape says when pages stand for one; Tree/Whole has the operations
--              on every such index. Index/Adapter is storage/src/bstarplus_adapter.cpp, which makes
--              the tree an index of a table.
--   Storage    storage. Storage/Datum is the view of a value in which a string is its text;
--              Storage/Pool is src/string_pool.cpp, with Pool/Stream for the stream it is saved to,
--              Storage/Value is src/value.cpp, Storage/Schema is include/sql/schema.h, and
--              Storage/Table, with Operations and Materialize, is src/table.cpp over an index with
--              the operations of include/index/index.h, and Storage/Dbms is src/dbms.cpp and
--              include/storage/database.h. A call of a table gives the table it leaves beside its
--              result, so that one that throws is modelled with what it changed before.
--
-- Loops and recursion. `tokenize` makes one round for each byte of the input and one more, the loops
-- over lists of a statement one for each token, and nested conditions go as deep as there are
-- tokens; that this is enough is part of the results on the lexer and the parser. A loop that follows
-- page ids makes one round for each page and one more, and a file whose pages form a ring ends in an
-- error of its own; on a tree the rounds are enough, which the results on it contain. A split or a
-- repair goes along its path. The other loops are by recursion on a list.
--
-- Limits of the models. Characters are bytes, and the tests of <cctype> are those of the C locale.
-- The counter of lines is unbounded. Ids of strings are taken modulo 2 ^ 32 and ids of rows modulo
-- 2 ^ 64; a result that needs room for one more id says so. The texts of error messages are left
-- out, with what they are built from kept. A hash map is a list of its entries.
--
-- A write to the file system succeeds, and the bytes written are those read. A byte in a file that
-- stands for no kind of key is taken for an unknown kind.
--
-- Not modelled: saving and loading of tables, which walk directories, the making of an index for a
-- column, waiting for a request, logs, sockets and the client.
pub mod Base
pub mod Engine
pub mod Executor
pub mod Index
pub mod Sql
pub mod Storage
