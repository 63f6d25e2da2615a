-- ===== src/Config/Tests.antt =====
-- Concrete runs of the model of src/common/config.cpp.
use asio_coro_frame.Base.{
  ℕ, ◌≡◌, refl, List, [], ◌∷◌, ◌++◌, true, Option, some, Bool, ◌==◌, Text, lit, All,
}
use asio_coro_frame.Config.{IConfig, iconfig, Mysql}
use asio_coro_frame.Config.Keys.{IsPresent, single_keys, mysql_keys, iconfig-IsPresent}
use asio_coro_frame.Config.Instance.{thrown, returned, run, before}
use asio_coro_frame.Config.Instance.Once.{get_instance-once}

-- two threads that pass the first test before either takes the lock
abbrev both : List ℕ
both = 0 ∷ 1 ∷ 1 ∷ 0 ∷ 1 ∷ 1 ∷ 0 ∷ 0 ∷ 0 ∷ 0 ∷ 0 ∷ 0 ∷ []

-- The file cannot be read the first time.
abbrev first_fails : ℕ → Bool
first_fails n = n == 0

both_end :
    ((run first_fails both before).place 1 ≡ thrown)
    × ((run first_fails both before).place 0 ≡ returned (some 0))
unfolding run
both_end = (refl, refl)

get_instance-once_example :
    (◌≡◌ {A = Option ℕ} (some 0) (some 0))
    × ((run first_fails both before).m_ps ≡ some 0)
    × ((run first_fails both before).made ≡ 1)
get_instance-once_example = get_instance-once first_fails both 0 (some 0) both_end.1

abbrev every_key : Text → Option Text
every_key key = some key

abbrev ten : Text → Option ℕ
ten text = some 10

database_of : Text → Mysql
unfolding lit
database_of name = record {
  ip = name ++ lit ".ip";
  port = 10;
  username = name ++ lit ".username";
  password = name ++ lit ".password";
  database = name ++ lit ".database";
}

whole : IConfig
unfolding lit database_of
whole = record {
  webserver = record { m_port = lit "webserver.port"; m_threads = 10; m_url = lit "webserver.url" };
  m_redis_host = lit "redis.host";
  m_redis_port = 10;
  logging = record {
    m_log_name = lit "log.name";
    m_log_level = lit "log.level";
    m_log_auto_flush = true;
  };
  m_mysql = database_of (lit "mysql");
  m_mysql_eu = database_of (lit "mysql_eu");
  m_mysql_js = database_of (lit "mysql_js");
  m_mysql_as = database_of (lit "mysql_as");
  m_attendance_from = lit "attendance.from";
  m_attendance_to = lit "attendance.to";
}

whole_read : iconfig every_key ten ≡ some whole
unfolding iconfig whole lit database_of
whole_read = refl

whole-IsPresent :
    All (IsPresent every_key ten) single_keys
    × All (IsPresent every_key ten) (mysql_keys (lit "mysql"))
    × All (IsPresent every_key ten) (mysql_keys (lit "mysql_eu"))
    × All (IsPresent every_key ten) (mysql_keys (lit "mysql_js"))
    × All (IsPresent every_key ten) (mysql_keys (lit "mysql_as"))
whole-IsPresent = iconfig-IsPresent every_key ten whole whole_read
