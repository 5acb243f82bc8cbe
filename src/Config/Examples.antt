-- ===== src/Config/Examples.antt =====
-- The configuration at concrete environments.
use Prim.Native.String.{len}
use arena.Common.{◌≤◌, pos, str_eq, false, ◌≡◌, refl, inl, inr, none, [], ◌∷◌, if◌then◌else◌}
use arena.Sandbox.Numbers.{parse_int, parse_digits}
use arena.Sandbox.Boxrun.{Env, getenv_from}
use arena.Config.{
  Config, weak_runner_token, str, num, dur, read_config, with_secrets, check_secrets, load,
}
use arena.Config.Secrets.{load-secrets}

abbrev prod_env : Env
prod_env =
    ("ARENA_ENV", "prod")
    ∷ ("ARENA_JWT_SECRET", "0123456789abcdef0123456789abcdef")
    ∷ ("ARENA_RUNNER_TOKEN", "0123456789abcdef")
    ∷ ("ARENA_RUNNER_SLOTS", "4")
    ∷ []

weak_token :
    load
      (λ t. none)
      (("ARENA_ENV", "prod") ∷ ("ARENA_JWT_SECRET", "0123456789abcdef0123456789abcdef") ∷ [])
    ≡ inl weak_runner_token
unfolding load read_config check_secrets str num dur getenv_from
weak_token = refl

abbrev loaded : Config
loaded = with_secrets (read_config (λ t. none) prod_env)

slots_read : loaded.runner_slots ≡ pos 4
unfolding with_secrets read_config num getenv_from parse_int parse_digits
slots_read = refl

loads : load (λ t. none) prod_env ≡ inr loaded
unfolding load read_config check_secrets str num dur getenv_from
loads = refl

load-secrets_example :
    (str_eq loaded.jwt_secret "" ≡ false)
    × (str_eq loaded.runner_token "" ≡ false)
    × ((if str_eq loaded.env "prod" then 32 else 0) ≤ len loaded.jwt_secret)
    × ((if str_eq loaded.env "prod" then 16 else 0) ≤ len loaded.runner_token)
load-secrets_example = load-secrets (λ t. none) prod_env loaded loads
