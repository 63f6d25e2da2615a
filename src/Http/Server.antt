-- ===== src/Http/Server.antt =====
-- The start of the server: main of src/main.cpp and serverRedisResource of src/serverResource.hpp.
use asio_coro_frame.Base.{ℕ, ◌+◌, ◌≡◌, Bool, true, false, Option, none, some, Text, arith}
use asio_coro_frame.Config.{IConfig}

-- What `createCluster` comes to.
pub data Creation (C : Type 0) : Type 0 where
  created : C → Creation C
  thrown thrown_other : Creation C

pub record HttpServer (C : Type 0) : Type 0 where
  pub port : ℕ
  pub threads : ℕ
  -- whether default_resource has an entry for "GET"
  pub has_get : Bool
  -- cluster_p, a global variable
  pub cluster_p : Option C
  -- lines of the log
  pub logged : ℕ

-- How main ends: with a message on the terminal, or with the server's thread started and joined.
pub data Ending (C : Type 0) : Type 0 where
  message : Ending C
  serving : HttpServer C → Ending C

-- rounds of the loop that measures the log
abbrev pub log_rounds : ℕ
log_rounds = 900000

module _ {C : Type 0} (create_cluster : Text → ℕ → Creation C) where
  unfoldable pub server_redis_resource : IConfig → HttpServer C → HttpServer C
  server_redis_resource config server =
      elim (create_cluster config.m_redis_host config.m_redis_port) [
        | created cluster ↦ record server { cluster_p = some cluster; has_get = true }
        | thrown ↦ record server { logged = server.logged + 1 }
        | thrown_other ↦ server
      ]

  -- `lexical_cast` throws where it answers `none`, and `construct` says whether the constructor of
  -- the library's server returns for a port and a number of threads.
  unfoldable pub main : (Text → Option ℕ) → (ℕ → ℕ → Bool) → IConfig → Ending C
  unfolding server_redis_resource
  main lexical_cast construct config = elim (lexical_cast config.webserver.m_port) [
    | none ↦ message
    | some port ↦ elim (construct port config.webserver.m_threads) [
      | false ↦ message
      | true ↦ serving (
          server_redis_resource config (record {
            port = port;
            threads = config.webserver.m_threads;
            has_get = false;
            cluster_p = none;
            logged = log_rounds;
          }))
    ]
  ]

  abbrev pub is_created : Option C → Bool
  is_created none = false
  is_created (some cluster) = true

  -- In a server that is started, GET has a handler exactly when the redis cluster was created: with
  -- redis down, no file is served either.
  pub main-has_get :
      (lexical_cast : Text → Option ℕ) (construct : ℕ → ℕ → Bool) (config : IConfig)
      (server : HttpServer C)
      → main lexical_cast construct config ≡ serving server
      → server.has_get ≡ is_created server.cluster_p
  unfolding main server_redis_resource
  main-has_get lexical_cast construct config server e = ground arith
