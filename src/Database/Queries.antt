-- ===== src/Database/Queries.antt =====
-- What `get_res` of `mysql_connect` (src/common/mysql_connect.cpp) answers after any number of queries.
use asio_coro_frame.Base.{
  ◌≡◌, refl, sym, ap, ◌∙◌, List, [], ◌∷◌, ◌++◌, append_assoc, append-nil, Option, none, some, Text,
  arith, length, get_elem?, inl, inr, Option-cases,
}
use asio_coro_frame.Database.{
  Connector, MysqlConnect, MysqlInfo, mysql_connect, set_res, log_error, query, queries, get_res,
  rows_of,
}

abbrev pub last {ℓ} : {A : Type ℓ} → List A → Option A
last [] = none
last (x ∷ []) = some x
last (x ∷ y ∷ xs) = last (y ∷ xs)

last-snoc {ℓ} : {A : Type ℓ} (xs : List A) (x : A) → last (xs ++ x ∷ []) ≡ some x
last-snoc [] x = refl
last-snoc (y ∷ []) x = refl
last-snoc (y ∷ z ∷ xs) x = last-snoc (z ∷ xs) x

get_elem?-snoc {ℓ} :
    {A : Type ℓ} (xs : List A) (x : A) → get_elem? (xs ++ x ∷ []) (length xs) ≡ some x
get_elem?-snoc [] x = refl
get_elem?-snoc (y ∷ xs) x = get_elem?-snoc xs x

module _ {Db Statement Row : Type 0} (library : Connector Db Statement Row) where
  abbrev prepared : Statement → MysqlConnect Db Statement Row → MysqlConnect Db Statement Row
  prepared statement c = record c {
    m_pstmt = some statement;
    m_con = (library.execute_query statement c.m_con).1;
  }

  -- The three ways in which `query` ends.
  data Queried (text : Text) (c : MysqlConnect Db Statement Row) : Type 0 where
    rejected :
        library.prepare text ≡ none → query library text c ≡ log_error library c → Queried text c
    failed :
        (statement : Statement)
        → library.prepare text ≡ some statement
        → (library.execute_query statement c.m_con).0 ≡ none
        → query library text c ≡ log_error library (prepared statement c)
        → Queried text c
    answered :
        (statement : Statement) (rows : List Row)
        → library.prepare text ≡ some statement
        → (library.execute_query statement c.m_con).0 ≡ some rows
        → query library text c ≡ set_res library rows (prepared statement c)
        → Queried text c

  query-Queried : (text : Text) (c : MysqlConnect Db Statement Row) → Queried text c
  unfolding query
  query-Queried text c = elim (Option-cases (library.prepare text)) [
    | inl e ↦ rejected e (rw (e, query) refl)
    | inr (statement, e) ↦ elim (Option-cases (library.execute_query statement c.m_con).0) [
      | inl f ↦ failed statement e f (rw (e, query) (rw f refl))
      | inr (rows, f) ↦ answered statement rows e f (rw (e, query) (rw f refl))
    ]
  ]

  -- The answers to the queries that succeed, one after the other.
  unfoldable pub answers : List Text → Db → List (List Row)
  answers [] con = []
  answers (text ∷ texts) con = elim (library.prepare text) [
    | none ↦ answers texts con
    | some statement ↦
        let (answer, after) = library.execute_query statement con in
        elim answer [ none ↦ answers texts after | some rows ↦ rows ∷ answers texts after ]
  ]

  -- `m_res` is the result set that was made last.
  abbrev IsLast : MysqlConnect Db Statement Row → Type 0
  IsLast c = rows_of library c c.m_res ≡ last c.results

  query-IsLast :
      (text : Text) (c : MysqlConnect Db Statement Row) → IsLast c → IsLast (query library text c)
  query-IsLast text c h = elim (query-Queried text c) [
    | rejected e same ↦ rw same h
    | failed statement e f same ↦ rw same h
    | answered statement rows e f same ↦
        rw same (get_elem?-snoc c.results rows ∙ sym (last-snoc c.results rows))
  ]

  queries-IsLast :
      (texts : List Text) (c : MysqlConnect Db Statement Row)
      → IsLast c
      → IsLast (queries library texts c)
  unfolding queries
  queries-IsLast [] c h = h
  queries-IsLast (text ∷ texts) c h =
      queries-IsLast texts (query library text c) (query-IsLast text c h)

  queries-results :
      (texts : List Text) (c : MysqlConnect Db Statement Row)
      → (queries library texts c).results ≡ c.results ++ answers texts c.m_con
  unfolding queries answers
  queries-results [] c = sym (append-nil c.results)
  queries-results (text ∷ texts) c =
      queries-results texts (query library text c) ∙ elim (query-Queried text c) [
        | rejected e same ↦ rw same (rw (e, answers) refl)
        | failed statement e f same ↦ rw same (rw (e, answers) (rw f refl))
        | answered statement rows e f same ↦
            rw same (rw (e, answers) (rw f (append_assoc c.results (rows ∷ []) _)))
      ]

  mysql_connect-new :
      (info : MysqlInfo) (c : MysqlConnect Db Statement Row)
      → mysql_connect library info ≡ some c
      → (c.results ≡ []) × (c.m_res ≡ none)
  unfolding mysql_connect
  mysql_connect-new info c e = ground arith

  -- On a new connection, after any queries, `get_res` gives the answer to the last query that
  -- succeeded, or none if no query did: a query that fails leaves the answer to an earlier one.
  pub queries-get_res :
      (info : MysqlInfo) (c : MysqlConnect Db Statement Row) (texts : List Text)
      → mysql_connect library info ≡ some c
      → let after = queries library texts c in
        rows_of library after (get_res library after) ≡ last (answers texts c.m_con)
  queries-get_res info c texts e =
      let (no_results, no_res) = mysql_connect-new info c e in
      queries-IsLast texts c (rw (no_results, no_res) refl)
      ∙ ap last (
          queries-results texts c
          ∙ ap (λ (t : List (List Row)). t ++ answers texts c.m_con) no_results)
