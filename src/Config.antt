-- ===== src/Config.antt =====
-- iconfig, src/common/config.hpp and config.cpp: the values that the constructor reads. The parsed file
-- and boost::lexical_cast<unsigned short> are parameters.
pub mod Keys
pub mod Instance
mod Tests
use asio_coro_frame.Base.{
  ℕ, Bool, true, false, ◌++◌, Option, none, some, Text, lit, text_eq, if◌then◌else◌,
}

-- m_mysql_ip to m_mysql_database, and the same for the three other databases
pub record Mysql : Type 0 where
  pub ip : Text
  pub port : ℕ
  pub username : Text
  pub password : Text
  pub database : Text

pub record Webserver : Type 0 where
  pub m_port : Text
  pub m_threads : ℕ
  pub m_url : Text

pub record Logging : Type 0 where
  pub m_log_name : Text
  pub m_log_level : Text
  pub m_log_auto_flush : Bool

-- the members of iconfig, in groups of one section of the file each
pub record IConfig : Type 0 where
  pub webserver : Webserver
  pub m_redis_host : Text
  pub m_redis_port : ℕ
  pub logging : Logging
  pub m_mysql : Mysql
  pub m_mysql_eu : Mysql
  pub m_mysql_js : Mysql
  pub m_mysql_as : Mysql
  pub m_attendance_from : Text
  pub m_attendance_to : Text

infixl 5 ◌>>=◌
-- a statement that may throw, and what comes after it
unfoldable pub ◌>>=◌ : {A B : Type 0} → Option A → (A → Option B) → Option B
◌>>=◌ none f = none
◌>>=◌ (some a) f = f a

-- `get` is m_pt.get<std::string>, and `none` a thrown exception.
module _ (get : Text → Option Text) (lexical_cast : Text → Option ℕ) where
  unfoldable pub read_webserver : Option Webserver
  unfolding ◌>>=◌ lit
  read_webserver = do
    port ← get (lit "webserver.port")
    threads ← get (lit "webserver.threads")
    n ← lexical_cast threads
    url ← get (lit "webserver.url")
    some (record { m_port = port; m_threads = n; m_url = url })

  unfoldable pub read_log : Option Logging
  unfolding ◌>>=◌ lit
  read_log = do
    name ← get (lit "log.name")
    level ← get (lit "log.level")
    flush ← get (lit "log.auto_flush")
    some (record {
      m_log_name = name;
      m_log_level = level;
      m_log_auto_flush = if text_eq flush (lit "false") then false else true;
    })

  -- the five lines of one database, in whose keys `name` comes first
  unfoldable pub read_mysql : Text → Option Mysql
  unfolding ◌>>=◌ lit
  read_mysql name = do
    ip ← get (name ++ lit ".ip")
    port ← get (name ++ lit ".port")
    n ← lexical_cast port
    username ← get (name ++ lit ".username")
    password ← get (name ++ lit ".password")
    database ← get (name ++ lit ".database")
    some (record {
      ip = ip;
      port = n;
      username = username;
      password = password;
      database = database;
    })

  -- iconfig::iconfig after read_ini
  unfoldable pub iconfig : Option IConfig
  unfolding ◌>>=◌ lit read_webserver read_log read_mysql
  iconfig = do
    webserver ← read_webserver
    host ← get (lit "redis.host")
    port ← get (lit "redis.port")
    n ← lexical_cast port
    logging ← read_log
    mysql ← read_mysql (lit "mysql")
    eu ← read_mysql (lit "mysql_eu")
    js ← read_mysql (lit "mysql_js")
    as_ ← read_mysql (lit "mysql_as")
    from ← get (lit "attendance.from")
    to ← get (lit "attendance.to")
    some (record {
      webserver = webserver;
      m_redis_host = host;
      m_redis_port = n;
      logging = logging;
      m_mysql = mysql;
      m_mysql_eu = eu;
      m_mysql_js = js;
      m_mysql_as = as_;
      m_attendance_from = from;
      m_attendance_to = to;
    })
