-- ===== src/Ledger/Start.antt =====
-- A new instance on freshly allocated ports, and the ledger.
use mathlib.Core.List.{map-append}
use elo_service.Prelude.{
  ℕ, ◌≤◌, ◌≡◌, refl, ap, ◌∙◌, String, true, false, some, List, [], ◌∷◌, ◌++◌, map, arith, nat_eq,
  string_eq, ◌==◌, Bool-cases, inl, inr, update_by, contains, IsNodup, All-map, All-update_by,
  All-always, All-contains, find_by_unique, update_by-cong, map-update_by, count-append, eq_of_test,
  eq_self, count-of_not_contains, count-IsNodup, IsNodup-concat,
}
use elo_service.Store.{MachineHost, ServerInstance, Db, is_deleted}
use elo_service.Hosts.{
  ok, is_active_on, with_id, get_machine_host, put_ports, update_host, allocate_ports,
}
use elo_service.Hosts.Capacity.{IsAllocation, allocate_ports-IsAllocation}
use elo_service.Instances.{si_id}
use elo_service.Ledger.{IsBalanced, Ledger}
use elo_service.Ledger.Held.{held-append}

abbrev host_key : MachineHost → String
host_key h = h.id

abbrev grow : List ℕ → MachineHost → MachineHost
grow ports h = put_ports (h.allocated_ports ++ ports) h

grow-eq :
    (host_id : String) (ports : List ℕ) (db : Db) (h : MachineHost)
    → IsNodup (map host_key db.hosts)
    → get_machine_host host_id db ≡ some h
    → update_host host_id (put_ports (h.allocated_ports ++ ports)) db
      ≡ record db { hosts = update_by (with_id host_id) (grow ports) db.hosts }
unfolding get_machine_host update_host
grow-eq host_id ports db h u e =
    ap (λ (hs : List MachineHost). record db { hosts = hs })
      (update_by-cong (with_id host_id) (put_ports (h.allocated_ports ++ ports)) (grow ports)
        db.hosts
        (All-map (λ x. (x.id == host_id) ≡ true → x ≡ h)
          (λ x. (x.id == host_id) ≡ true → put_ports (h.allocated_ports ++ ports) x ≡ grow ports x)
          db.hosts (λ x same on. rw (same on)) (find_by_unique host_key host_id db.hosts u e)))

module _ (sis : List ServerInstance) (si : ServerInstance)
    (live : is_deleted si.status ≡ false) where
  grow-IsBalanced :
      (count_asked range_start range_end : ℕ) (h : MachineHost)
      → IsAllocation count_asked range_start range_end h si.host_ports
      → IsBalanced sis h
      → with_id si.machine_host_id h ≡ true
      → IsBalanced (sis ++ (si ∷ [])) (grow si.host_ports h)
  grow-IsBalanced n s e h fit b on up q =
      let here : h.id ≡ si.machine_host_id = eq_of_test h.id si.machine_host_id on in
      let act : is_active_on h.id si ≡ true = rw (here, eq_self si.machine_host_id, live) in
      let total = rw act at (held-append sis (si ∷ []) h.id q) in
      let sum = count-append q h.allocated_ports si.host_ports in
      let before = b up q in
      let most = count-IsNodup q si.host_ports fit.distinct in
      elim (Bool-cases (contains si.host_ports q)) [
        | inl mine ↦
            let bounds =
              All-contains (λ p. (s ≤ p) × (p ≤ e) × (contains h.allocated_ports p ≡ false))
                si.host_ports q fit.fresh mine in
            let absent = count-of_not_contains q h.allocated_ports bounds.2 in
            (omega arith, omega arith)
        | inr other ↦
            let none_new = count-of_not_contains q si.host_ports other in (omega arith, omega arith)
      ]

  stay-IsBalanced :
      (h : MachineHost)
      → IsBalanced sis h
      → with_id si.machine_host_id h ≡ false
      → IsBalanced (sis ++ (si ∷ [])) h
  stay-IsBalanced h b off up q =
      let idle : is_active_on h.id si ≡ false = ground (
        arith,
        string_eq.same_iff h.id si.machine_host_id,
        string_eq.same_iff si.machine_host_id h.id,
      ) in
      let total = rw idle at (held-append sis (si ∷ []) h.id q) in
      let before = b up q in (omega arith, before.1)

-- Allocating ports for a host and writing an instance that holds them, under a new id.
pub start_instance-Ledger :
    (count_asked range_start range_end : ℕ) (si : ServerInstance) (db : Db)
    → Ledger db
    → (allocate_ports si.machine_host_id count_asked range_start range_end db).0 ≡ ok si.host_ports
    → is_deleted si.status ≡ false
    → contains (map si_id db.instances) si.id ≡ false
    → let after = (allocate_ports si.machine_host_id count_asked range_start range_end db).1 in
      Ledger (record after { instances = after.instances ++ (si ∷ []) })
unfolding get_machine_host
start_instance-Ledger n s e si db l done live fresh =
    let (h, found, fit, after) = allocate_ports-IsAllocation si.machine_host_id n s e db done in
    let rows = after ∙ grow-eq si.machine_host_id si.host_ports db h l.host_ids found in
    let unique = find_by_unique host_key si.machine_host_id db.hosts l.host_ids found in
    rw rows (record {
      host_ids =
          rw
            (map-update_by host_key (with_id si.machine_host_id) (grow si.host_ports) db.hosts
              (λ x. refl))
            l.host_ids;
      instance_ids =
          rw (map-append si_id db.instances (si ∷ []))
            (IsNodup-concat (map si_id db.instances) si.id l.instance_ids fresh);
      balanced =
          All-update_by (IsBalanced db.instances) (IsBalanced (db.instances ++ (si ∷ [])))
            (with_id si.machine_host_id) (grow si.host_ports) db.hosts l.balanced
            (All-map (λ x. (x.id == si.machine_host_id) ≡ true → x ≡ h)
              (λ x.
                IsBalanced db.instances x
                → with_id si.machine_host_id x ≡ true
                → IsBalanced (db.instances ++ (si ∷ [])) (grow si.host_ports x))
              db.hosts
              (λ x same b on. grow-IsBalanced db.instances si live n s e x (rw (same on) fit) b on)
              unique)
            (All-always _ db.hosts (λ x. stay-IsBalanced db.instances si live x));
    })
