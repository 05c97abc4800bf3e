-- ===== src/Rules/Counts.antt =====
-- How many containers of each class `enforceRules` of Daemon/clean_cont.go leaves running.
use Prim.Native.Nat.{min}
use proyecto_1_sopes.Prelude.{
  ℕ, ◌+◌, ◌-◌, ◌≡◌, true, false, Bool, not, ◌++◌, List, arith, ap, ◌∙◌, length, select, contains,
  IsDistinct, bytes_key, length-append, select-append,
}
use proyecto_1_sopes.Rules.{
  ContainerInfo, Shell, enforce_rules, desired_low_containers, desired_high_containers,
}
use proyecto_1_sopes.Rules.Reading.{
  ArePrintable, is_low, is_high_cpu, is_high_ram, low_not_cpu, low_not_ram, cpu_not_ram,
}
use proyecto_1_sopes.Rules.Removal.{
  ids, without, select-without, select-IsDistinct, length-without-take, without_disjoint,
  AreDisjoint-take, kinds-AreDisjoint, append-IsDistinct,
}
use proyecto_1_sopes.Rules.Quota.{
  IsDocker, surplus_highs, surplus_lows, enforce_rules_removes, lows-surplus_highs,
}

abbrev pub low_count : List ContainerInfo → ℕ
low_count cs = length (select is_low cs)

abbrev pub high_count : List ContainerInfo → ℕ
high_count cs = length (select is_high_cpu cs) + length (select is_high_ram cs)

module _ (cs : List ContainerInfo) (d : IsDistinct (ids cs)) where
  abbrev kept : List ContainerInfo
  kept = without (ids (surplus_highs cs)) cs

  highs-IsDistinct : IsDistinct (ids (select is_high_cpu cs ++ select is_high_ram cs))
  highs-IsDistinct =
      append-IsDistinct (select is_high_cpu cs) (select is_high_ram cs)
        (select-IsDistinct is_high_cpu cs d) (select-IsDistinct is_high_ram cs d)
        (kinds-AreDisjoint is_high_cpu is_high_ram cs cpu_not_ram d)

  -- A kind that is not low loses nothing to the second half.
  keeps_kind :
      (p : ContainerInfo → Bool)
      → ((c : ContainerInfo) → p c ≡ true → is_low c ≡ false)
      → select p (without (ids (surplus_lows cs)) kept) ≡ select p kept
  keeps_kind p ex =
      select-without p (ids (surplus_lows cs)) kept
      ∙ without_disjoint (ids (surplus_lows cs)) (select p kept) (
          AreDisjoint-take (low_count cs - desired_low_containers) (select p kept)
            (select is_low cs)
            (rw (lows-surplus_highs cs d) at (
              kinds-AreDisjoint p is_low kept ex
                (select-IsDistinct (λ c. not (contains c.id (ids (surplus_highs cs)))) cs d))))

  pub high_count-kept : high_count kept ≡ high_count cs - (high_count cs - desired_high_containers)
  high_count-kept =
      let cpu = select is_high_cpu cs in
      let ram = select is_high_ram cs in
      let xs = ids (surplus_highs cs) in
      omega (
        arith,
        ap length (select-without is_high_cpu xs cs),
        ap length (select-without is_high_ram xs cs),
        ap length (select-append (λ c. not (contains c.id xs)) cpu ram),
        length-append (without xs cpu) (without xs ram),
        length-append cpu ram,
        length-without-take (high_count cs - desired_high_containers) (cpu ++ ram) highs-IsDistinct,
      )

module _ {World : Type 0} (shell : Shell World) (host : IsDocker shell) where
  open host use {running}

  -- After one pass the low containers are at most three and the high ones, CPU and RAM together, at
  -- most two; a class that was within its quota keeps its number. The conditions are those of
  -- the removal theorem: commands succeed, ids are distinct, and the listing is made of words.
  pub enforce_rules_quota :
      (w : World)
      → ArePrintable (running w)
      → IsDistinct (ids (running w))
      → let after = running (enforce_rules shell w) in
        (low_count after ≡ min desired_low_containers (low_count (running w)))
        × (high_count after ≡ min desired_high_containers (high_count (running w)))
  enforce_rules_quota w h d =
      let cs = running w in
      rw (enforce_rules_removes shell host w h d) (
        omega (
          arith,
          ap length (
              select-without is_low (ids (surplus_lows cs)) (kept cs d)
              ∙ ap (without (ids (surplus_lows cs))) (lows-surplus_highs cs d)),
          length-without-take (low_count cs - desired_low_containers) (select is_low cs)
              (select-IsDistinct is_low cs d),
        ),
        omega (
          arith,
          ap length (keeps_kind cs d is_high_cpu (λ c e. ground (arith, low_not_cpu c))),
          ap length (keeps_kind cs d is_high_ram (λ c e. ground (arith, low_not_ram c))),
          high_count-kept cs d,
        ),
      )
