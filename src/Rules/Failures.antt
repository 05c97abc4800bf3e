-- ===== src/Rules/Failures.antt =====
-- `enforceRules` of Daemon/clean_cont.go on a host on which any command may fail.
use Prim.Native.Nat.{min}
use proyecto_1_sopes.Prelude.{
  ◌≤◌, ◌≡◌, refl, sym, ◌∙◌, ap, subst, not, [], ◌∷◌, List, Bytes, bytes_key, ◌==◌, arith, some,
  Option-cases, ◌⊎◌, inl, inr, Result, ok, err, select, contains, IsDistinct,
}
use proyecto_1_sopes.Rules.{
  ContainerInfo, Shell, Listing, Error, command_failed, docker, ps_args, stop_args, run_cmd,
  stop_container, list_stress_containers, trim_highs, trim_lows, or_give_up, enforce_rules,
  desired_low_containers, desired_high_containers,
}
use proyecto_1_sopes.Rules.Loop.{stop_all, trim_highs_lem, trim_lows_lem}
use proyecto_1_sopes.Rules.Reading.{render, ArePrintable, by_kind, parse_listing-render}
use proyecto_1_sopes.Rules.Removal.{ids, without, without_cons, select-IsDistinct}
use proyecto_1_sopes.Rules.Quota.{
  is_stress, select-ArePrintable, by_kind-is_stress, surplus_highs, surplus_lows, or_give_up_ok,
}
use proyecto_1_sopes.Rules.Counts.{low_count, high_count}
use proyecto_1_sopes.Rules.Loss.{
  Loses, Loses-nothing, contains-cons, Loses-surplus_highs, Loses-surplus_lows, other_count,
}

-- What the daemon relies on of Docker where commands may fail or run out of time: `ps` changes
-- nothing, and prints the running containers that pass its filters if it succeeds; `stop`,
-- whatever it answers, has ended the container with the given id or changed nothing.
pub record IsFallibleDocker {World : Type 0} (shell : Shell World) : Type 0 where
  pub running : World → List ContainerInfo
  pub ps_prints :
      (w : World) {out : Bytes}
      → (shell.run 5 docker ps_args w).0 ≡ some out
      → out ≡ render (select is_stress (running w))
  pub ps_keeps : (w : World) → running (shell.run 5 docker ps_args w).1 ≡ running w
  pub stop_ends_or_not :
      (c : ContainerInfo) (w : World)
      → (running (shell.run 10 docker (stop_args c) w).1
          ≡ select (λ d. not (c.id == d.id)) (running w))
        ⊎ (running (shell.run 10 docker (stop_args c) w).1 ≡ running w)

-- Of each class a pass leaves at least as many running as its quota allows and were running
-- before, and it stops no container of another class.
abbrev pub LeavesQuotas : List ContainerInfo → List ContainerInfo → Type 0
LeavesQuotas cs ds =
    (min desired_low_containers (low_count cs) ≤ low_count ds)
    × (min desired_high_containers (high_count cs) ≤ high_count ds)
    × (other_count cs ≤ other_count ds)

or_give_up_err :
    {World : Type 0} (shell : Shell World) (f : Listing → World → World)
    (r : Result Error Listing × World) (x : Error)
    → r.0 ≡ err x
    → or_give_up shell f r ≡ r.1
or_give_up_err shell f (ok l, w) x h = absurd (ground arith)
or_give_up_err shell f (err y, w) x h = refl

module _ {World : Type 0} (shell : Shell World) (host : IsFallibleDocker shell) where
  open host use {running, ps_prints, ps_keeps, stop_ends_or_not}

  stop_all-Loses :
      (cs : List ContainerInfo) (w : World)
      → Loses (ids cs) (running w) (running (stop_all shell cs w))
  unfolding stop_all stop_container run_cmd
  stop_all-Loses [] w = Loses-nothing [] (running w)
  stop_all-Loses (c ∷ cs) w =
      let (ks, sub, e) = stop_all-Loses cs (stop_container shell c w) in
      elim (stop_ends_or_not c w) [
        | inl h ↦ (
          c.id ∷ ks,
          contains-cons c.id ks (ids cs) sub,
          e ∙ (ap (without ks) h ∙ without_cons c.id ks (running w)),
        )
        | inr h ↦ (ks, (λ k i. ground (arith, sub k)), e ∙ ap (without ks) h)
      ]

  list_outcomes :
      (w : World)
      → ArePrintable (running w)
      → ((list_stress_containers shell w).0 ≡ ok (by_kind (running w)))
        ⊎ ((list_stress_containers shell w).0 ≡ err command_failed)
  unfolding list_stress_containers run_cmd
  list_outcomes w h = elim (Option-cases (shell.run 5 docker ps_args w).0) [
    | inl e ↦ inr (rw e refl)
    | inr (out, e) ↦ inl (
        rw (e, ps_prints w e)
          (parse_listing-render (select is_stress (running w))
              (select-ArePrintable is_stress (running w) h)
            ∙ ap ok (by_kind-is_stress (running w))))
  ]

  running-list_any : (w : World) → running (list_stress_containers shell w).1 ≡ running w
  unfolding list_stress_containers run_cmd
  running-list_any w = ps_keeps w

  second_half : World → World
  second_half w = or_give_up shell (trim_lows shell) (list_stress_containers shell w)

  second_half-Loses :
      (w : World)
      → ArePrintable (running w)
      → Loses (ids (surplus_lows (running w))) (running w) (running (second_half w))
  unfolding second_half
  second_half-Loses w h =
      let r = list_stress_containers shell w in
      let xs = surplus_lows (running w) in
      elim (list_outcomes w h) [
        | inl e ↦
            subst (λ cs. Loses (ids xs) cs (running (second_half w))) (running-list_any w)
              (subst (λ v. Loses (ids xs) (running r.1) (running v))
                (sym (
                  or_give_up_ok shell (trim_lows shell) r (by_kind (running w)) e
                  ∙ trim_lows_lem shell (by_kind (running w)) r.1))
                (stop_all-Loses xs r.1))
        | inr e ↦
            subst (Loses (ids xs) (running w))
              (sym (
                ap running (or_give_up_err shell (trim_lows shell) r command_failed e)
                ∙ running-list_any w))
              (Loses-nothing (ids xs) (running w))
      ]

  first_half : List ContainerInfo → World → World
  first_half cs w = trim_highs shell (by_kind cs) w

  first_half-Loses :
      (cs : List ContainerInfo) (w : World)
      → running w ≡ cs
      → Loses (ids (surplus_highs cs)) cs (running (first_half cs w))
  unfolding first_half
  first_half-Loses cs w h =
      subst (λ bs. Loses (ids (surplus_highs cs)) bs (running (first_half cs w))) h
        (subst (λ v. Loses (ids (surplus_highs cs)) (running w) (running v))
          (sym (trim_highs_lem shell (by_kind cs) w)) (stop_all-Loses (surplus_highs cs) w))

  -- What a pass does, by the outcome of the first listing.
  enforce_rules_outcomes :
      (w : World)
      → ArePrintable (running w)
      → (enforce_rules shell w
          ≡ second_half (first_half (running w) (list_stress_containers shell w).1))
        ⊎ (enforce_rules shell w ≡ (list_stress_containers shell w).1)
  unfolding enforce_rules second_half first_half
  enforce_rules_outcomes w h = elim (list_outcomes w h) [
    | inl e ↦ inl (or_give_up_ok shell _ (list_stress_containers shell w) (by_kind (running w)) e)
    | inr e ↦ inr (or_give_up_err shell _ (list_stress_containers shell w) command_failed e)
  ]

  halves-LeavesQuotas :
      (cs : List ContainerInfo) (w : World)
      → running w ≡ cs
      → ArePrintable cs
      → IsDistinct (ids cs)
      → LeavesQuotas cs (running (second_half (first_half cs w)))
  halves-LeavesQuotas cs w e h d =
      let w1 = first_half cs w in
      let (ks, sub, e1) = first_half-Loses cs w e in
      let keep = λ (c : ContainerInfo). not (contains c.id ks) in
      let h1 : ArePrintable (running w1) = rw e1 (select-ArePrintable keep cs h) in
      let d1 : IsDistinct (ids (running w1)) = rw e1 (select-IsDistinct keep cs d) in
      let (a, b, c) = Loses-surplus_highs cs (running w1) d (ks, sub, e1) in
      let (a', b', c') =
        Loses-surplus_lows (running w1) (running (second_half w1)) d1 (second_half-Loses w1 h1) in
      (omega arith, omega arith, omega arith)

  -- Whichever commands fail, a pass leaves at least three low containers and at least two of high
  -- consumption running, or all of them where there were fewer, and stops no container of another
  -- class. Ids are distinct, and ids, names and images are words; a `stop` that fails may or may
  -- not have ended its container.
  pub enforce_rules-LeavesQuotas :
      (w : World)
      → ArePrintable (running w)
      → IsDistinct (ids (running w))
      → LeavesQuotas (running w) (running (enforce_rules shell w))
  enforce_rules-LeavesQuotas w h d = elim (enforce_rules_outcomes w h) [
    | inl e ↦
        subst (λ v. LeavesQuotas (running w) (running v)) (sym e)
          (halves-LeavesQuotas (running w) (list_stress_containers shell w).1 (running-list_any w) h
            d)
    | inr e ↦
        subst (LeavesQuotas (running w)) (sym (ap running e ∙ running-list_any w))
          (omega arith, omega arith, omega arith)
  ]
