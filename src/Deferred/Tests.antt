-- ===== src/Deferred/Tests.antt =====
-- Deferred restarts: a charm that blocks restarts, and the theorems there.
use charm_helpers.Prelude.{
  ℕ, ◌≡◌, refl, String, [], ◌∷◌, true, not, ◌&&◌, ◌||◌, none, some, is_some, str_eq, if◌then◌else◌,
  elem, select, lookup,
}
use charm_helpers.Deferred.Policy.{bare_name, add_policy_block, remove_policy_block, main_status}
use charm_helpers.Deferred.Policy.Answers.{any_blocks, is_readable}
use charm_helpers.Deferred.Policy.Blocking.{
  main_status-add_policy_block, main_status-remove_policy_block,
}
use charm_helpers.Deferred.Events.{
  ServiceEvent, Files, save_event, check_restart_timestamps, get_deferred_restarts,
}
use charm_helpers.Deferred.Events.Recorded.{is_recorded, save_event_lem}
use charm_helpers.Deferred.Events.Cleared.{any_done, check_restart_timestamps_lem}

main_status-blocked :
    main_status 7 "ovs.service" "restart" (add_policy_block "neutron" "ovs" ("restart" ∷ []) [])
    ≡ some 101
unfolding main_status add_policy_block
main_status-blocked = refl

main_status-add_policy_block_example :
    main_status 7 "ovs.service" "restart" (add_policy_block "neutron" "ovs" ("restart" ∷ []) [])
    ≡ some (
        if (str_eq (bare_name "ovs") (bare_name "ovs.service") && elem "restart" ("restart" ∷ []))
          || any_blocks (bare_name "ovs.service") "restart" []
        then 101
        else 0)
unfolding is_readable
main_status-add_policy_block_example =
    main_status-add_policy_block 7 "neutron" "ovs" "ovs.service" "restart" ("restart" ∷ []) [] refl

main_status-remove_policy_block_example :
    main_status 7 "ovs" "restart" (remove_policy_block "neutron" "ovs" ("restart" ∷ []) []) ≡ none
main_status-remove_policy_block_example =
    main_status-remove_policy_block 7 "neutron" "ovs" "ovs" "restart" ("restart" ∷ []) [] refl

abbrev restart_at : ℕ → String → ServiceEvent
restart_at t reason = record {
  timestamp = t;
  service = "ovs";
  reason = some reason;
  action = "restart";
  policy_requestor_name = "neutron";
  policy_requestor_type = "charm";
}

abbrev one_file : Files
one_file = ("a.deferred", restart_at 10 "ovs.conf") ∷ []

save_event_lem_example :
    (is_recorded "neutron"
        (restart_at 30 "db.conf")
        (save_event "neutron" "b.deferred" (restart_at 30 "db.conf") one_file)
      ≡ true)
    × (save_event "neutron" "c.deferred"
          (restart_at 30 "db.conf")
          (save_event "neutron" "b.deferred" (restart_at 30 "db.conf") one_file)
        ≡ save_event "neutron" "b.deferred" (restart_at 30 "db.conf") one_file)
    × ((other : String)
        → is_some (lookup other one_file) ≡ true
        → lookup other (save_event "neutron" "b.deferred" (restart_at 30 "db.conf") one_file)
          ≡ lookup other one_file)
save_event_lem_example =
    save_event_lem "neutron" "b.deferred" "c.deferred" (restart_at 30 "db.conf") one_file refl

abbrev two_files : Files
two_files = ("a.deferred", restart_at 10 "ovs.conf") ∷ ("b.deferred", restart_at 30 "db.conf") ∷ []

-- The service started at 20; the restart that was asked for at 30 is cleared with the other.
check-started_between : check_restart_timestamps "neutron" (λ s. some 20) two_files ≡ []
unfolding check_restart_timestamps
check-started_between = refl

check_restart_timestamps_lem_example :
    check_restart_timestamps "neutron" (λ s. some 20) two_files
    ≡ select
        (λ f.
          not (any_done (λ s. some 20) (f.1).service (get_deferred_restarts "neutron" two_files)))
        two_files
check_restart_timestamps_lem_example =
    check_restart_timestamps_lem "neutron" (λ s. some 20) two_files
