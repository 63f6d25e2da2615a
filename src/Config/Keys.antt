-- ===== src/Config/Keys.antt =====
-- The keys that the constructor of iconfig (src/common/config.cpp) needs.
use asio_coro_frame.Base.{
  ℕ, ◌≡◌, ◌≢◌, List, [], ◌∷◌, ◌++◌, Option, none, some, Text, lit, arith, All, Option-cases, inl,
  inr,
}
use asio_coro_frame.Config.{
  IConfig, Mysql, Webserver, Logging, ◌>>=◌, read_webserver, read_log, read_mysql, iconfig,
}

abbrev pub mysql_keys : Text → List Text
mysql_keys name =
    (name ++ lit ".ip")
    ∷ (name ++ lit ".port")
    ∷ (name ++ lit ".username")
    ∷ (name ++ lit ".password")
    ∷ (name ++ lit ".database")
    ∷ []

abbrev pub single_keys : List Text
single_keys =
    lit "webserver.port"
    ∷ lit "webserver.threads"
    ∷ lit "webserver.url"
    ∷ lit "redis.host"
    ∷ lit "redis.port"
    ∷ lit "log.name"
    ∷ lit "log.level"
    ∷ lit "log.auto_flush"
    ∷ lit "attendance.from"
    ∷ lit "attendance.to"
    ∷ []

module _ (get : Text → Option Text) (lexical_cast : Text → Option ℕ) where
  abbrev pub IsPresent : Text → Type 0
  IsPresent key = get key ≢ none

  mysql-IsPresent :
      (name : Text) (m : Mysql)
      → read_mysql get lexical_cast name ≡ some m
      → All IsPresent (mysql_keys name)
  unfolding read_mysql ◌>>=◌
  mysql-IsPresent name m h = ground arith

  webserver-IsPresent :
      (w : Webserver)
      → read_webserver get lexical_cast ≡ some w
      → IsPresent (lit "webserver.port")
        × IsPresent (lit "webserver.threads")
        × IsPresent (lit "webserver.url")
  unfolding read_webserver ◌>>=◌
  webserver-IsPresent w h = ground arith

  log-IsPresent :
      (l : Logging)
      → read_log get lexical_cast ≡ some l
      → IsPresent (lit "log.name") × IsPresent (lit "log.level") × IsPresent (lit "log.auto_flush")
  unfolding read_log ◌>>=◌
  log-IsPresent l h = ground arith

  -- the first half of the constructor
  front-IsPresent :
      (c : IConfig)
      → iconfig get lexical_cast ≡ some c
      → (read_webserver get lexical_cast ≢ none)
        × IsPresent (lit "redis.host")
        × IsPresent (lit "redis.port")
        × (read_log get lexical_cast ≢ none)
  unfolding iconfig ◌>>=◌
  front-IsPresent c h = ground arith

  databases-IsPresent :
      (c : IConfig)
      → iconfig get lexical_cast ≡ some c
      → (read_mysql get lexical_cast (lit "mysql") ≢ none)
        × (read_mysql get lexical_cast (lit "mysql_eu") ≢ none)
        × (read_mysql get lexical_cast (lit "mysql_js") ≢ none)
        × (read_mysql get lexical_cast (lit "mysql_as") ≢ none)
        × IsPresent (lit "attendance.from")
        × IsPresent (lit "attendance.to")
  unfolding iconfig ◌>>=◌
  databases-IsPresent c h = ground arith

  database-IsPresent :
      (name : Text) → read_mysql get lexical_cast name ≢ none → All IsPresent (mysql_keys name)
  database-IsPresent name h = elim (Option-cases (read_mysql get lexical_cast name)) [
    | inl missing ↦ absurd (h missing)
    | inr (m, read) ↦ mysql-IsPresent name m read
  ]

  singles-IsPresent :
      read_webserver get lexical_cast ≢ none
      → read_log get lexical_cast ≢ none
      → (IsPresent (lit "webserver.port")
          × IsPresent (lit "webserver.threads")
          × IsPresent (lit "webserver.url"))
        × (IsPresent (lit "log.name")
            × IsPresent (lit "log.level")
            × IsPresent (lit "log.auto_flush"))
  singles-IsPresent h k = elim (Option-cases (read_webserver get lexical_cast)) [
    | inl missing ↦ absurd (h missing)
    | inr (w, web) ↦ elim (Option-cases (read_log get lexical_cast)) [
      | inl missing ↦ absurd (k missing)
      | inr (l, logs) ↦ (webserver-IsPresent w web, log-IsPresent l logs)
    ]
  ]

  -- A configuration is read only where the file has every key: the ten single ones and the five of
  -- each of the four databases. Without one of them the constructor throws.
  pub iconfig-IsPresent :
      (c : IConfig)
      → iconfig get lexical_cast ≡ some c
      → All IsPresent single_keys
        × All IsPresent (mysql_keys (lit "mysql"))
        × All IsPresent (mysql_keys (lit "mysql_eu"))
        × All IsPresent (mysql_keys (lit "mysql_js"))
        × All IsPresent (mysql_keys (lit "mysql_as"))
  iconfig-IsPresent c h =
      let (web, host, port, logs) = front-IsPresent c h in
      let (mysql, eu, js, as_, from, to) = databases-IsPresent c h in
      let ((web_port, threads, url), (name, level, flush)) = singles-IsPresent web logs in
      (
        (web_port, (threads, (url, (host, (port, (name, (level, (flush, (from, (to, tt)))))))))),
        database-IsPresent (lit "mysql") mysql,
        database-IsPresent (lit "mysql_eu") eu,
        database-IsPresent (lit "mysql_js") js,
        database-IsPresent (lit "mysql_as") as_,
      )
