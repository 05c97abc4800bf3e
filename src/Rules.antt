-- ===== src/Rules.antt =====
-- Daemon/clean_cont.go: the rules that keep the stress containers within their quotas. The host on
-- which commands run is a parameter, `Shell`; a state of it is a `World`.
pub mod Loop
pub mod Reading
pub mod Removal
pub mod Quota
pub mod Counts
pub mod Loss
pub mod Failures
use proyecto_1_sopes.Prelude.{
  ℕ, ◌+◌, ◌-◌, ◌≡◌, Bool, true, false, Option, none, some, List, [], ◌∷◌, ◌++◌, ltb, leb,
  if◌then◌else◌, length, Bytes, ascii, Result, ok, err,
}
use proyecto_1_sopes.Text.{has_prefix, fields, scan_lines}

abbrev pub desired_low_containers : ℕ
desired_low_containers = 3

abbrev pub desired_high_containers : ℕ
desired_high_containers = 2

abbrev pub stress_prefix : Bytes
stress_prefix = ascii "stress-"

abbrev pub low_prefix : Bytes
low_prefix = ascii "stress-low-"

abbrev pub high_cpu_prefix : Bytes
high_cpu_prefix = ascii "stress-high-cpu-"

abbrev pub high_ram_prefix : Bytes
high_ram_prefix = ascii "stress-high-ram-"

pub record ContainerInfo : Type 0 where
  pub id : Bytes
  pub name : Bytes
  pub image : Bytes

-- The host: `exec.CommandContext(ctx, name, args...).Run()` with a timeout in seconds. The answer is
-- the standard output, or `none` when the command cannot be run, fails or is out of time.
pub record Shell (World : Type 0) : Type 0 where
  pub run : ℕ → Bytes → List Bytes → World → Option Bytes × World

pub data Error : Type 0 where
  command_failed line_too_long : Error

-- The three named results of `listStressContainers`.
pub record Listing : Type 0 where
  pub lows : List ContainerInfo
  pub highs_cpu : List ContainerInfo
  pub highs_ram : List ContainerInfo

abbrev pub docker : Bytes
docker = ascii "docker"

abbrev pub ps_args : List Bytes
ps_args =
    ascii "ps"
    ∷ ascii "--filter"
    ∷ ascii "status=running"
    ∷ ascii "--filter"
    ∷ (ascii "name=" ++ stress_prefix)
    ∷ ascii "--format"
    ∷ ascii "{{.ID}} {{.Names}} {{.Image}}"
    ∷ []

abbrev pub stop_args : ContainerInfo → List Bytes
stop_args c = ascii "stop" ∷ c.id ∷ []

-- `parts` of one line: fewer than two are skipped, the third may be missing.
unfoldable pub parse_parts : List Bytes → Option ContainerInfo
parse_parts [] = none
parse_parts (_ ∷ []) = none
parse_parts (id ∷ name ∷ []) = some (record { id = id; name = name; image = [] })
parse_parts (id ∷ name ∷ image ∷ _) = some (record { id = id; name = name; image = image })

-- The `switch` over the name's prefix.
unfoldable pub file_container : ContainerInfo → Listing → Listing
file_container ci l =
    if has_prefix ci.name low_prefix
    then record l { lows = l.lows ++ ci ∷ [] }
    else if has_prefix ci.name high_cpu_prefix
    then record l { highs_cpu = l.highs_cpu ++ ci ∷ [] }
    else if has_prefix ci.name high_ram_prefix
    then record l { highs_ram = l.highs_ram ++ ci ∷ [] }
    else l

abbrev pub file_parts : Option ContainerInfo → Listing → Listing
file_parts none l = l
file_parts (some ci) l = file_container ci l

-- The loop over the scanned lines.
unfoldable pub collect : List Bytes → Listing → Listing
collect [] l = l
collect (line ∷ lines) l = collect lines (file_parts (parse_parts (fields line)) l)

abbrev pub no_containers : Listing
no_containers = record { lows = []; highs_cpu = []; highs_ram = [] }

unfoldable pub parse_listing : Bytes → Result Error Listing
parse_listing out = elim (scan_lines out) [
  | none ↦ err line_too_long
  | some lines ↦ ok (collect lines no_containers)
]

module _ {World : Type 0} (shell : Shell World) where
  open shell use {run}

  -- `runCmd`: the text of the error is left out.
  unfoldable pub run_cmd : ℕ → Bytes → List Bytes → World → Result Error Bytes × World
  run_cmd timeout name args w =
      let (out, w') = run timeout name args w in
      (elim out [ none ↦ err command_failed | some s ↦ ok s ], w')

  unfoldable pub list_stress_containers : World → Result Error Listing × World
  unfolding run_cmd
  list_stress_containers w =
      let (r, w') = run_cmd 5 docker ps_args w in
      (elim r [ err e ↦ err e | ok out ↦ parse_listing out ], w')

  -- A failed stop is reported on the console and nothing more.
  unfoldable pub stop_container : ContainerInfo → World → World
  unfolding run_cmd
  stop_container c w = (run_cmd 10 docker (stop_args c) w).1

  -- `for _, c := range cs { if toKill <= 0 { break }; stopContainer(c, …); toKill-- }`
  unfoldable pub stop_loop : List ContainerInfo → ℕ → World → ℕ × World
  stop_loop [] to_kill w = (to_kill, w)
  stop_loop (c ∷ cs) to_kill w =
      let rest = stop_loop cs (to_kill - 1) (stop_container c w) in
      if leb to_kill 0 then (to_kill, w) else rest

  -- The first half of `enforceRules`, after a listing: CPU containers first, then RAM.
  unfoldable pub trim_highs : Listing → World → World
  unfolding stop_loop
  trim_highs l w =
      let high_count = length l.highs_cpu + length l.highs_ram in
      if ltb desired_high_containers high_count
      then (let (left, w') = stop_loop l.highs_cpu (high_count - desired_high_containers) w in
          (stop_loop l.highs_ram left w').1)
      else w

  -- The second half.
  unfoldable pub trim_lows : Listing → World → World
  unfolding stop_loop
  trim_lows l w =
      if ltb desired_low_containers (length l.lows)
      then (stop_loop l.lows (length l.lows - desired_low_containers) w).1
      else w

  abbrev pub or_give_up : (Listing → World → World) → Result Error Listing × World → World
  or_give_up f (ok l, w) = f l w
  or_give_up f (err _, w) = w

  -- `enforceRules`; a failed listing ends it.
  unfoldable pub enforce_rules : World → World
  unfolding trim_highs trim_lows
  enforce_rules w =
      or_give_up (λ l w1. or_give_up trim_lows (list_stress_containers (trim_highs l w1)))
        (list_stress_containers w)
