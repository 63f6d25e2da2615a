-- ===== src/Database/Tests.antt =====
-- A concrete connector for `mysql_connect` (src/common/mysql_connect.cpp): it rejects an empty text,
-- fails on one that starts with a zero, and answers with the bytes of any other.
use asio_coro_frame.Base.{
  ℕ, zero, suc, ◌+◌, ◌≡◌, refl, List, [], ◌∷◌, Option, none, some, Text, lit,
}
use asio_coro_frame.Database.{
  Connector, MysqlConnect, MysqlInfo, mysql_connect, query, queries, get_res, rows_of, test,
  test_query,
}
use asio_coro_frame.Database.Queries.{last, answers, queries-get_res}

prepare_text : Text → Option Text
prepare_text [] = none
prepare_text (c ∷ text) = some (c ∷ text)

run_text : Text → ℕ → Option (List ℕ) × ℕ
run_text [] n = (none, n + 1)
run_text (zero ∷ text) n = (none, n + 1)
run_text (suc c ∷ text) n = (some (suc c ∷ text), n + 1)

abbrev echoing : Connector ℕ Text ℕ
echoing = record {
  connect = λ url user password. some 0;
  set_schema = λ name con. some con;
  prepare = prepare_text;
  set_double = λ place value statement. some statement;
  execute_query = run_text;
  execute_update = λ statement con. (some 1, con + 1);
}

abbrev info : MysqlInfo
info = record {
  ip = lit "10.0.0.1";
  port = lit "3306";
  username = [];
  password = [];
  database = lit "erp";
}

abbrev new : MysqlConnect ℕ Text ℕ
new = record { m_con = 0; m_pstmt = none; m_res = none; results = []; errors = 0 }

-- The second and the third query fail, and the answer to the first stays.
abbrev texts : List Text
texts = (7 ∷ 8 ∷ []) ∷ (0 ∷ []) ∷ [] ∷ []

stale_answer :
    rows_of echoing (queries echoing texts new) (get_res echoing (queries echoing texts new))
    ≡ some (7 ∷ 8 ∷ [])
unfolding queries query prepare_text run_text
stale_answer = refl

test_reads_all : (test echoing (1 ∷ []) (2 ∷ []) new).results ≡ [] ∷ []
unfolding test test_query prepare_text run_text
test_reads_all = refl

queries-get_res_example :
    rows_of echoing (queries echoing texts new) (get_res echoing (queries echoing texts new))
    ≡ last (answers echoing texts 0)
unfolding mysql_connect
queries-get_res_example = queries-get_res echoing info new texts refl
