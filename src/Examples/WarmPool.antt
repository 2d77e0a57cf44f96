-- ===== src/Examples/WarmPool.antt =====
-- Runs of the warm pool.
use elo_service.Prelude.{ℕ, ◌≡◌, refl, false, some, none, length}
use elo_service.Matchmaking.{Config}
use elo_service.WarmPool.{WarmEnv, WarmLoop, maintain_warm_pool}
use elo_service.WarmPool.Ends.{IsEnd, maintain_warm_pool-IsEnd}
use elo_service.Examples.Fixtures.{one_config, one_db}

abbrev warm_env : WarmEnv
warm_env = record {
  count_fails = false;
  cert_fails = false;
  conn_info = some (record {
    provider_id = "vm2";
    public_ip = "10.0.0.2";
    agent_token = "other";
    agent_port = 8080;
  });
  save_host_fails = false;
  ready_fails = false;
  dns_record = none;
  new_host_id = "h2";
}

-- Two hosts may stand, and three free slots are asked for: one host is added.
abbrev roomy : Config
roomy = record one_config { max_hosts = 2; warm_slots = 3 }

abbrev hosts_after : WarmLoop → ℕ
hosts_after (WarmLoop.reached available db) = length db.hosts
hosts_after (WarmLoop.failed db) = 0
hosts_after WarmLoop.running = 0

one_added : hosts_after (maintain_warm_pool 3 (λ n. warm_env) roomy one_db) ≡ 2
unfolding maintain_warm_pool
one_added = refl

maintain_warm_pool-IsEnd_example : IsEnd roomy (maintain_warm_pool 3 (λ n. warm_env) roomy one_db)
maintain_warm_pool-IsEnd_example = maintain_warm_pool-IsEnd (λ n. warm_env) roomy one_db
