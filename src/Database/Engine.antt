-- ===== src/Database/Engine.antt =====
-- app/infrastructure/database/session.py: what the engine and the session factory are made with.
use fastapi_starter.Prelude.{
  ℕ, ◌+◌, ◌≡◌, refl, String, Bool, true, false, Bool-cases, inl, inr, if◌then◌else◌,
}
use fastapi_starter.Config.{DatabaseSettings}
use fastapi_starter.Database.UnitOfWork.{starts_with}

-- `StaticPool` keeps one connection, which every thread may use here; the default pool keeps
-- `pool_size` connections and opens at most `max_overflow` more.
pub data Pooling : Type 0 where
  static_pool : Pooling
  sized_pool : ℕ → ℕ → Pooling

-- The keyword arguments of `create_async_engine`.
pub record EngineOptions : Type 0 where
  pub url : String
  pub echo : Bool
  pub pooling : Pooling
  pub pre_ping : Bool

unfoldable pub create_engine : DatabaseSettings → EngineOptions
unfolding starts_with
create_engine settings =
    if starts_with "sqlite" settings.url
    then record {
      url = settings.url;
      echo = settings.echo;
      pooling = static_pool;
      pre_ping = false;
    }
    else record {
      url = settings.url;
      echo = settings.echo;
      pooling = sized_pool settings.pool_size settings.max_overflow;
      pre_ping = true;
    }

-- The keyword arguments of `async_sessionmaker`.
pub record FactoryOptions : Type 0 where
  pub engine : EngineOptions
  pub expire_on_commit : Bool
  pub autoflush : Bool

abbrev pub create_session_factory : EngineOptions → FactoryOptions
create_session_factory engine = record {
  engine = engine;
  expire_on_commit = false;
  autoflush = false;
}

abbrev pub capacity : Pooling → ℕ
capacity static_pool = 1
capacity (sized_pool size overflow) = size + overflow

-- Two sessions of a SQLite database share a connection, and so one database in memory; elsewhere
-- the settings bound the connections.
connections :
    (settings : DatabaseSettings)
    → capacity (create_engine settings).pooling ≡ (
        if starts_with "sqlite" settings.url then 1 else settings.pool_size + settings.max_overflow)
unfolding create_engine
connections settings = elim (Bool-cases (starts_with "sqlite" settings.url)) [
  | inl sqlite ↦ rw sqlite refl
  | inr server ↦ rw server refl
]
