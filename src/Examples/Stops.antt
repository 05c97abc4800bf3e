-- ===== src/Examples/Stops.antt =====
-- The rules of Daemon/clean_cont.go on a host with one container of high consumption too many.
use Prim.Native.Nat.{min}
use proyecto_1_sopes.Prelude.{◌≡◌, refl, [], ◌∷◌, take, ok}
use proyecto_1_sopes.Text.{has_prefix}
use proyecto_1_sopes.Rules.{
  enforce_rules, desired_low_containers, desired_high_containers, parse_listing, trim_highs,
  trim_lows,
}
use proyecto_1_sopes.Rules.Loop.{stop_all, trim_highs_lem, trim_lows_lem}
use proyecto_1_sopes.Rules.Reading.{render, by_kind, parse_listing-render}
use proyecto_1_sopes.Rules.Removal.{ids, without}
use proyecto_1_sopes.Rules.Quota.{surplus_highs, surplus_lows, enforce_rules_removes}
use proyecto_1_sopes.Rules.Counts.{low_count, high_count, enforce_rules_quota}
use proyecto_1_sopes.Rules.Failures.{LeavesQuotas, enforce_rules-LeavesQuotas}
use proyecto_1_sopes.Examples.Host.{
  slow_shell, slow_shell-IsFallibleDocker, docker_shell, docker_shell-IsDocker, cpu_one, cpu_two,
  ram_three, low_four, four_containers, four_containers-ArePrintable,
}

-- The first CPU container of the listing is stopped.
enforce_rules_run :
    without
      (ids (surplus_lows four_containers))
      (without (ids (surplus_highs four_containers)) four_containers)
    ≡ low_four ∷ ram_three ∷ cpu_two ∷ []
unfolding has_prefix
enforce_rules_run = refl

enforce_rules_removes_example :
    enforce_rules docker_shell four_containers
    ≡ without
        (ids (surplus_lows four_containers))
        (without (ids (surplus_highs four_containers)) four_containers)
enforce_rules_removes_example =
    enforce_rules_removes docker_shell docker_shell-IsDocker four_containers
      four_containers-ArePrintable (refl, (refl, (refl, (refl, tt))))

enforce_rules_quota_example :
    let after = enforce_rules docker_shell four_containers in
    (low_count after ≡ min desired_low_containers (low_count four_containers))
    × (high_count after ≡ min desired_high_containers (high_count four_containers))
enforce_rules_quota_example =
    enforce_rules_quota docker_shell docker_shell-IsDocker four_containers
      four_containers-ArePrintable (refl, (refl, (refl, (refl, tt))))

parse_listing-render_example : parse_listing (render four_containers) ≡ ok (by_kind four_containers)
parse_listing-render_example = parse_listing-render four_containers four_containers-ArePrintable

trim_highs_lem_example :
    trim_highs docker_shell (by_kind four_containers) four_containers
    ≡ stop_all docker_shell (take 1 (cpu_one ∷ cpu_two ∷ ram_three ∷ [])) four_containers
unfolding has_prefix
trim_highs_lem_example = trim_highs_lem docker_shell (by_kind four_containers) four_containers

trim_lows_lem_example :
    trim_lows docker_shell (by_kind four_containers) four_containers
    ≡ stop_all docker_shell (take 0 (low_four ∷ [])) four_containers
unfolding has_prefix
trim_lows_lem_example = trim_lows_lem docker_shell (by_kind four_containers) four_containers

enforce_rules-LeavesQuotas_example :
    LeavesQuotas four_containers (enforce_rules slow_shell four_containers)
enforce_rules-LeavesQuotas_example =
    enforce_rules-LeavesQuotas slow_shell slow_shell-IsFallibleDocker four_containers
      four_containers-ArePrintable (refl, (refl, (refl, (refl, tt))))
