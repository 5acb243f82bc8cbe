-- ===== src/Api/World.antt =====
-- What the server's handlers read and write: the database, the stored sources, the leaderboards,
-- the in-flight locks, the queue's messages and the event bus; and the catalogue, which they only
-- read.
use arena.Common.{ℕ, ℤ, String, Option, List}
use arena.Core.Limits.{Limits, LimitSet, Multiplier}
use arena.Core.Verdict.{Verdict, Status}
use arena.Core.Job.{CheckerConfig, TestRef, JobSpec}
use arena.Core.Scoring.{ScoreMode}
use arena.Langs.Registry.{Registry}
use arena.Redis.Leaderboard.{Board}
use arena.Store.{Db}

pub record Problem (F : Type 0) : Type 0 where
  pub id : String
  pub contest_id : String
  pub limits : Limits
  pub checker : CheckerConfig F
  pub testdata_version : String

pub record Contest : Type 0 where
  pub id : String
  pub starts_at : ℤ
  pub scoring_mode : ScoreMode

-- A message on the event bus, by its topic.
pub data Event : Type 0 where
  status_event : String → Status → Event
  verdict_event : String → Status → Verdict → Event
  board_event : String → Event

pub record World (F : Type 0) : Type 0 where
  pub db : Db
  pub blobs : List (String × List ℕ)
  pub boards : String → Board
  pub in_flight : List String
  pub queue : List (JobSpec F)
  pub events : List Event

-- The tables that no handler here writes, the manifests, and the configuration. SHA-256, which the
-- library of the language provides, is a parameter: `source_hash`, and `cache_key`, which
-- `VerdictCacheKey` applies to its five arguments.
pub record Server (fl : Multiplier) : Type 0 where
  pub problem : String → Option (Problem fl.Float)
  pub tests : String → List TestRef
  pub contest : String → Option Contest
  pub langs : Registry fl.Float
  pub max_attempts : ℤ
  pub source_hash : List ℕ → String
  pub cache_key : String → String → String → String → LimitSet → String
