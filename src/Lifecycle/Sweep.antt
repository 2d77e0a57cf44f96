-- ===== src/Lifecycle/Sweep.antt =====
-- A whole sweep of the cooled matches, from the listing on.
use elo_service.Prelude.{
  ℕ, ◌≡◌, ap, ◌∙◌, inl, inr, String, some, List, [], ◌∷◌, nat_eq, string_eq, ◌==◌, find_by, All,
  All-map, Option-cases, find_by-key,
}
use elo_service.Store.{ServerInstance, Match, Db}
use elo_service.Instances.{
  si_id, CooldownEntry, get_server_instance, cooldown_rows, load_entries,
  list_cooldown_instances_ready,
}
use elo_service.Ledger.{Ledger}
use elo_service.Lifecycle.{AgentOutcome, sweep_entry, sweep_entries, sweep_cooled_matches}
use elo_service.Lifecycle.Balance.{Found, sweep_entry-Ledger, sweep_entry-Found}

read_again :
    (i : String) (si : ServerInstance) (db : Db) → get_server_instance i db ≡ some si → Found si db
unfolding get_server_instance
read_again i si db e =
    (si.status, ap (λ j. get_server_instance j db) (find_by-key si_id i db.instances e) ∙ e)

load_entries-Found :
    (rows : List (String × ℕ)) (db : Db) → All (λ e. Found e.instance_row db) (load_entries rows db)
unfolding load_entries
load_entries-Found [] db = tt
load_entries-Found ((i, ended) ∷ rows) db = elim (Option-cases (get_server_instance i db)) [
  | inl gone ↦ rw (gone, load_entries) (load_entries-Found rows db)
  | inr (si, here) ↦
      elim (Option-cases (find_by (λ (m : Match). m.server_instance_id == i) db.matches)) [
        | inl no_match ↦ rw (here, no_match, load_entries) (load_entries-Found rows db)
        | inr (m, there) ↦
            rw (here, there, load_entries) (read_again i si db here, load_entries-Found rows db)
      ]
]

sweep_entries-Ledger :
    (now deadline : ℕ) (agents : String → AgentOutcome) (es : List CooldownEntry) (db : Db)
    → All (λ e. Found e.instance_row db) es
    → Ledger db
    → Ledger (sweep_entries now deadline agents es db)
unfolding sweep_entries
sweep_entries-Ledger now deadline agents [] db f l = l
sweep_entries-Ledger now deadline agents (e ∷ es) db f l =
    sweep_entries-Ledger now deadline agents es (sweep_entry now deadline agents e db)
      (All-map (λ x. Found x.instance_row db)
        (λ x. Found x.instance_row (sweep_entry now deadline agents e db)) es
        (λ x. sweep_entry-Found now deadline agents e x.instance_row db) f.1)
      (sweep_entry-Ledger now deadline agents e db f.0 l)

-- A sweep of the cooled matches keeps the ledger, whatever the agents answer and however old the
-- results are: the allocated ports of each host that is not deleted stay exactly those of the
-- instances active on it.
pub sweep_cooled_matches-Ledger :
    (now cooldown deadline : ℕ) (agents : String → AgentOutcome) (db : Db)
    → Ledger db
    → Ledger (sweep_cooled_matches now cooldown deadline agents db)
unfolding sweep_cooled_matches list_cooldown_instances_ready
sweep_cooled_matches-Ledger now cooldown deadline agents db l =
    sweep_entries-Ledger now deadline agents (list_cooldown_instances_ready now cooldown db) db
      (load_entries-Found (cooldown_rows now cooldown db.instances db) db) l
