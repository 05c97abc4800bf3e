-- ===== src/Rules/Quota.antt =====
-- `enforceRules` against what Docker documents of `docker ps` and `docker stop`, on a host on which
-- no one else starts or stops containers during the pass.
use proyecto_1_sopes.Prelude.{
  ◌+◌, ◌-◌, ◌≡◌, refl, true, Bool, not, [], ◌∷◌, ◌++◌, List, arith, ap, sym, ◌∙◌, some, length,
  select, take, contains, IsDistinct, ◌==◌, bytes_key, ok, err, Result,
}
use proyecto_1_sopes.Text.{contains_sub}
use proyecto_1_sopes.Text.Search.{has_prefix-rest, contains_sub-append}
use proyecto_1_sopes.Rules.{
  ContainerInfo, Shell, Listing, Error, docker, ps_args, stop_args, stress_prefix, low_prefix,
  high_cpu_prefix, high_ram_prefix, run_cmd, stop_container, list_stress_containers, trim_highs,
  trim_lows, enforce_rules, or_give_up, desired_low_containers, desired_high_containers,
}
use proyecto_1_sopes.Rules.Loop.{stop_all, trim_highs_lem, trim_lows_lem}
use proyecto_1_sopes.Rules.Reading.{
  render, ArePrintable, is_low, is_high_cpu, is_high_ram, low_not_cpu, low_not_ram, by_kind,
  parse_listing-render,
}
use proyecto_1_sopes.Rules.Removal.{
  ids, without, without_nil, without_cons, select-without, without_disjoint, AreDisjoint-take,
  AreDisjoint-append, kinds-AreDisjoint, without_cons,
}

-- `--filter name=stress-` keeps the names in which the text stands.
abbrev pub is_stress : ContainerInfo → Bool
is_stress c = contains_sub c.name stress_prefix

-- What the daemon relies on, where every command succeeds: `ps` prints the running containers that
-- pass its filters and changes nothing; `stop` ends the container with the given id.
pub record IsDocker {World : Type 0} (shell : Shell World) : Type 0 where
  pub running : World → List ContainerInfo
  pub ps_prints :
      (w : World) → (shell.run 5 docker ps_args w).0 ≡ some (render (select is_stress (running w)))
  pub ps_keeps : (w : World) → running (shell.run 5 docker ps_args w).1 ≡ running w
  pub stop_ends :
      (c : ContainerInfo) (w : World)
      → running (shell.run 10 docker (stop_args c) w).1
        ≡ select (λ d. not (c.id == d.id)) (running w)

select-select :
    (p q : ContainerInfo → Bool) (cs : List ContainerInfo)
    → ((c : ContainerInfo) → p c ≡ true → q c ≡ true)
    → select p (select q cs) ≡ select p cs
select-select p q [] h = refl
select-select p q (c ∷ cs) h = ground (arith, h c, select-select p q cs h)

pub select-ArePrintable :
    (p : ContainerInfo → Bool) (cs : List ContainerInfo)
    → ArePrintable cs
    → ArePrintable (select p cs)
select-ArePrintable p [] h = tt
select-ArePrintable p (c ∷ cs) h = ground (arith, select-ArePrintable p cs h.1)

is_low-is_stress : (c : ContainerInfo) → is_low c ≡ true → is_stress c ≡ true
is_low-is_stress c h =
    let (post, e) = has_prefix-rest c.name low_prefix h in
    ap (λ s. contains_sub s stress_prefix) e ∙ contains_sub-append [] stress_prefix _

is_high_cpu-is_stress : (c : ContainerInfo) → is_high_cpu c ≡ true → is_stress c ≡ true
is_high_cpu-is_stress c h =
    let (post, e) = has_prefix-rest c.name high_cpu_prefix h in
    ap (λ s. contains_sub s stress_prefix) e ∙ contains_sub-append [] stress_prefix _

is_high_ram-is_stress : (c : ContainerInfo) → is_high_ram c ≡ true → is_stress c ≡ true
is_high_ram-is_stress c h =
    let (post, e) = has_prefix-rest c.name high_ram_prefix h in
    ap (λ s. contains_sub s stress_prefix) e ∙ contains_sub-append [] stress_prefix _

pub by_kind-is_stress : (cs : List ContainerInfo) → by_kind (select is_stress cs) ≡ by_kind cs
by_kind-is_stress cs = ground (
  arith,
  select-select is_low is_stress cs is_low-is_stress,
  select-select is_high_cpu is_stress cs is_high_cpu-is_stress,
  select-select is_high_ram is_stress cs is_high_ram-is_stress,
)

module _ {World : Type 0} (shell : Shell World) (host : IsDocker shell) where
  open host use {running, ps_prints, ps_keeps, stop_ends}

  running-stop_all :
      (cs : List ContainerInfo) (w : World)
      → running (stop_all shell cs w) ≡ without (ids cs) (running w)
  unfolding stop_all stop_container run_cmd
  running-stop_all [] w = sym (without_nil (running w))
  running-stop_all (c ∷ cs) w =
      running-stop_all cs (stop_container shell c w)
      ∙ (ap (without (ids cs)) (stop_ends c w) ∙ without_cons c.id (ids cs) (running w))

  -- A listing reports the running containers of each kind.
  pub list_stress_containers_lem :
      (w : World)
      → ArePrintable (running w)
      → (list_stress_containers shell w).0 ≡ ok (by_kind (running w))
  unfolding list_stress_containers run_cmd
  list_stress_containers_lem w h = rw (ps_prints w) (
      parse_listing-render (select is_stress (running w))
        (select-ArePrintable is_stress (running w) h)
      ∙ ap ok (by_kind-is_stress (running w)))

  pub running-list : (w : World) → running (list_stress_containers shell w).1 ≡ running w
  unfolding list_stress_containers run_cmd
  running-list w = ps_keeps w

-- The containers that a pass stops: those above each quota, the first ones listed.
abbrev pub surplus_highs : List ContainerInfo → List ContainerInfo
surplus_highs cs =
    let l = by_kind cs in
    take (length l.highs_cpu + length l.highs_ram - desired_high_containers)
      (l.highs_cpu ++ l.highs_ram)

abbrev pub surplus_lows : List ContainerInfo → List ContainerInfo
surplus_lows cs = let l = by_kind cs in take (length l.lows - desired_low_containers) l.lows

-- No surplus container of high consumption is a low one.
pub lows-surplus_highs :
    (cs : List ContainerInfo)
    → IsDistinct (ids cs)
    → select is_low (without (ids (surplus_highs cs)) cs) ≡ select is_low cs
lows-surplus_highs cs h =
    let l = by_kind cs in
    select-without is_low (ids (surplus_highs cs)) cs
    ∙ without_disjoint (ids (surplus_highs cs)) l.lows (
        AreDisjoint-take _ l.lows (l.highs_cpu ++ l.highs_ram) (
          AreDisjoint-append l.lows l.highs_cpu l.highs_ram
            (kinds-AreDisjoint is_low is_high_cpu cs low_not_cpu h)
            (kinds-AreDisjoint is_low is_high_ram cs low_not_ram h)))

pub or_give_up_ok :
    {World : Type 0} (shell : Shell World) (f : Listing → World → World)
    (r : Result Error Listing × World) (l : Listing)
    → r.0 ≡ ok l
    → or_give_up shell f r ≡ f l r.1
or_give_up_ok shell f (ok l', w) l e = ground arith
or_give_up_ok shell f (err x, w) l e = cc

module _ {World : Type 0} (shell : Shell World) (host : IsDocker shell) where
  open host use {running}

  after_highs : (w : World) → World
  after_highs w = trim_highs shell (by_kind (running w)) (list_stress_containers shell w).1

  running-after_highs :
      (w : World) → running (after_highs w) ≡ without (ids (surplus_highs (running w))) (running w)
  unfolding after_highs
  running-after_highs w =
      let w1 = (list_stress_containers shell w).1 in
      ap running (trim_highs_lem shell (by_kind (running w)) w1)
      ∙ (running-stop_all shell host (surplus_highs (running w)) w1
          ∙ ap (without (ids (surplus_highs (running w)))) (running-list shell host w))

  enforce_rules-steps :
      (w : World)
      → ArePrintable (running w)
      → ArePrintable (running (after_highs w))
      → enforce_rules shell w
        ≡ trim_lows shell
            (by_kind (running (after_highs w)))
            (list_stress_containers shell (after_highs w)).1
  unfolding enforce_rules after_highs
  enforce_rules-steps w h k =
      or_give_up_ok shell _ (list_stress_containers shell w) (by_kind (running w))
        (list_stress_containers_lem shell host w h)
      ∙ or_give_up_ok shell (trim_lows shell) (list_stress_containers shell (after_highs w))
          (by_kind (running (after_highs w)))
          (list_stress_containers_lem shell host (after_highs w) k)

  -- One pass stops exactly the surplus: of the high-consumption containers all but two are stopped,
  -- in the order of the listing with the CPU ones first, and of the low ones all but three; every
  -- other container stays as it is. The host is one where every command succeeds, the ids are
  -- distinct, and ids, names and images are words.
  pub enforce_rules_removes :
      (w : World)
      → ArePrintable (running w)
      → IsDistinct (ids (running w))
      → running (enforce_rules shell w)
        ≡ without
            (ids (surplus_lows (running w)))
            (without (ids (surplus_highs (running w))) (running w))
  enforce_rules_removes w h d =
      let w2 = after_highs w in
      let r1 = running w in
      let e = running-after_highs w in
      let k : ArePrintable (running w2) =
        rw e (select-ArePrintable (λ c. not (contains c.id (ids (surplus_highs r1)))) r1 h) in
      let lows : select is_low (running w2) ≡ select is_low r1 =
        ap (select is_low) e ∙ lows-surplus_highs r1 d in
      ap running (enforce_rules-steps w h k ∙ trim_lows_lem shell (by_kind (running w2)) _)
      ∙ (running-stop_all shell host (surplus_lows (running w2)) (list_stress_containers shell w2).1
          ∙ (ap (without (ids (surplus_lows (running w2)))) (running-list shell host w2 ∙ e)
              ∙ ap
                  (λ ls.
                    without (ids (take (length ls - desired_low_containers) ls))
                      (without (ids (surplus_highs r1)) r1))
                  lows))
