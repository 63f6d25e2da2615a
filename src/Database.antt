-- ===== src/Database.antt =====
-- The class `mysql_connect` of src/common/mysql_connect.cpp: queries over one connection, and the
-- result that the last one left. The connector library is a parameter.
pub mod Queries
mod Tests
use asio_coro_frame.Base.{
  ℕ, zero, suc, ◌+◌, List, [], ◌∷◌, ◌++◌, Option, none, some, Text, lit, length, get_elem?,
}
use asio_coro_frame.Base.Places.{set_elem}

-- mysql_info
pub record MysqlInfo : Type 0 where
  pub ip : Text
  pub port : Text
  pub username : Text
  pub password : Text
  pub database : Text

-- The calls of the connector library that throw an SQLException answer `none`. A statement that
-- fails may have changed the database.
pub record Connector (Db Statement Row : Type 0) : Type 0 where
  pub connect : Text → Text → Text → Option Db
  pub set_schema : Text → Db → Option Db
  pub prepare : Text → Option Statement
  pub set_double : ℕ → Text → Statement → Option Statement
  pub execute_query : Statement → Db → Option (List Row) × Db
  pub execute_update : Statement → Db → Option ℕ × Db

-- A connection and the result sets that were made on it, each with the rows that are not read yet.
-- `m_res` is shared with those who called `get_res`: a place in `results`.
pub record MysqlConnect (Db Statement Row : Type 0) : Type 0 where
  pub m_con : Db
  pub m_pstmt : Option Statement
  pub m_res : Option ℕ
  pub results : List (List Row)
  pub errors : ℕ

module _ {Db Statement Row : Type 0} (library : Connector Db Statement Row) where
  open library use {connect, set_schema, prepare, set_double, execute_query, execute_update}

  -- mysql_connect::mysql_connect
  unfoldable pub mysql_connect : MysqlInfo → Option (MysqlConnect Db Statement Row)
  mysql_connect info =
      elim (connect (lit "tcp://" ++ info.ip ++ lit ":" ++ info.port) info.username info.password) [
        | none ↦ none
        | some con ↦ elim (set_schema info.database con) [
          | none ↦ none
          | some con ↦
              some (record { m_con = con; m_pstmt = none; m_res = none; results = []; errors = 0 })
        ]
      ]

  -- `m_res` gets a new result set.
  abbrev pub set_res : List Row → MysqlConnect Db Statement Row → MysqlConnect Db Statement Row
  set_res rows c = record c { m_res = some (length c.results); results = c.results ++ rows ∷ [] }

  -- the three lines of the `catch`
  abbrev pub log_error : MysqlConnect Db Statement Row → MysqlConnect Db Statement Row
  log_error c = record c { errors = c.errors + 3 }

  -- mysql_connect::query
  unfoldable pub query : Text → MysqlConnect Db Statement Row → MysqlConnect Db Statement Row
  query text c = elim (prepare text) [
    | none ↦ log_error c
    | some statement ↦
        let (answer, con) = execute_query statement c.m_con in
        let prepared = record c { m_pstmt = some statement; m_con = con } in
        elim answer [ none ↦ log_error prepared | some rows ↦ set_res rows prepared ]
  ]

  -- mysql_connect::get_res
  abbrev pub get_res : MysqlConnect Db Statement Row → Option ℕ
  get_res c = c.m_res

  -- What a caller of `get_res` can read.
  abbrev pub rows_of : MysqlConnect Db Statement Row → Option ℕ → Option (List Row)
  rows_of c none = none
  rows_of c (some place) = get_elem? c.results place

  -- `while (m_res->next())`, after `executeQuery`: no row is left to read.
  abbrev pub read_all : MysqlConnect Db Statement Row → MysqlConnect Db Statement Row
  read_all c = elim c.m_res [
    | none ↦ c
    | some place ↦ record c { results = set_elem place [] c.results }
  ]

  -- the second half of `test`
  unfoldable pub test_query : Text → MysqlConnect Db Statement Row → MysqlConnect Db Statement Row
  test_query text c = elim (prepare text) [
    | none ↦ c
    | some statement ↦
        let (answer, con) = execute_query statement c.m_con in
        let prepared = record c { m_pstmt = some statement; m_con = con } in
        elim answer [ none ↦ prepared | some rows ↦ read_all (set_res rows prepared) ]
  ]

  -- mysql_connect::test, with its two statements
  unfoldable pub test : Text → Text → MysqlConnect Db Statement Row → MysqlConnect Db Statement Row
  unfolding test_query
  test insert select c = elim (prepare insert) [
    | none ↦ c
    | some statement ↦
        let prepared = record c { m_pstmt = some statement } in
        elim (set_double 1 (lit "0.772558") statement) [
          | none ↦ prepared
          | some bound ↦
              let (count, con) = execute_update bound c.m_con in
              let updated = record prepared { m_pstmt = some bound; m_con = con } in
              elim count [ none ↦ updated | some n ↦ test_query select updated ]
        ]
  ]

  -- any number of calls of `query`
  unfoldable pub queries : List Text → MysqlConnect Db Statement Row → MysqlConnect Db Statement Row
  unfolding query
  queries [] c = c
  queries (text ∷ texts) c = queries texts (query text c)
