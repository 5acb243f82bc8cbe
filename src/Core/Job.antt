-- ===== src/Core/Job.antt =====
-- internal/core/job.go: the records that cross the queue and the API. A float64 is a parameter
-- `F`, a time.Time is a number of nanoseconds with 0 for the zero time, and a text
-- that a program or a checker produced is the list of its bytes.
use arena.Common.{ℕ, ℤ, String, Bool, true, false, List}
use arena.Core.Limits.{LimitSet}
use arena.Core.Verdict.{Verdict, Status}

pub record TestRef : Type 0 where
  pub index : ℤ
  pub input_ref : String
  pub output_ref : String
  pub is_sample : Bool
  pub points : ℤ

pub record CheckerConfig (F : Type 0) : Type 0 where
  pub kind : String  -- Type
  pub epsilon : F

pub record Policy : Type 0 where
  pub stop_on_first_failure : Bool
  pub network : Bool
  pub disable_aslr : Bool

abbrev pub default_policy : Policy
default_policy = record { stop_on_first_failure = true; network = false; disable_aslr = true }

pub record JobSpec (F : Type 0) : Type 0 where
  pub submission_id : String
  pub attempt : ℤ
  pub contest_id : String
  pub problem_id : String
  pub user_id : String
  pub language : String
  pub source_ref : String
  pub source_hash : String
  pub image_digest : String
  pub testdata_version : String
  pub tests : List TestRef
  pub limits : LimitSet
  pub checker : CheckerConfig F
  pub policy : Policy
  pub enqueued_at : ℤ

pub record ExecOutcome : Type 0 where
  pub exit_code : ℤ
  pub signal : ℤ
  pub cpu_ms : ℤ
  pub wall_ms : ℤ
  pub max_rss_kb : ℤ
  pub oom_killed : Bool
  pub wall_kill : Bool
  pub fsize_kill : Bool
  pub stdout_len : ℤ
  pub instructions : ℤ
  pub stderr : String

pub record TestResult : Type 0 where
  pub index : ℤ
  pub verdict : Verdict
  pub cpu_ms : ℤ
  pub wall_ms : ℤ
  pub mem_kb : ℤ
  pub exit_code : ℤ
  pub signal : ℤ
  pub message : List ℕ
  pub skipped : Bool
  pub sample_out : List ℕ

pub record SubmissionResult : Type 0 where
  pub submission_id : String
  pub attempt : ℤ
  pub runner_id : String
  pub verdict : Verdict
  pub status : Status
  pub cpu_ms : ℤ
  pub wall_ms : ℤ
  pub mem_kb : ℤ
  pub instructions : ℤ
  pub score : ℤ
  pub failed_test : ℤ
  pub compile_log : List ℕ
  pub tests : List TestResult
  pub image_digest : String
  pub cpu_model : String
  pub judged_at : ℤ
