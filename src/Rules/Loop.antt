-- ===== src/Rules/Loop.antt =====
-- The loops with `break` of `enforceRules`, Daemon/clean_cont.go.
use proyecto_1_sopes.Prelude.{
  ℕ, zero, suc, ◌+◌, ◌-◌, ◌≡◌, refl, List, [], ◌∷◌, ◌++◌, arith, length, take, take-append,
}
use proyecto_1_sopes.Rules.{
  ContainerInfo, Shell, Listing, stop_container, stop_loop, trim_highs, trim_lows,
  desired_low_containers, desired_high_containers,
}

module _ {World : Type 0} (shell : Shell World) where
  -- Every container of a list is stopped, in order.
  unfoldable pub stop_all : List ContainerInfo → World → World
  stop_all [] w = w
  stop_all (c ∷ cs) w = stop_all cs (stop_container shell c w)

  pub stop_all-append :
      (cs ds : List ContainerInfo) (w : World) → stop_all (cs ++ ds) w ≡ stop_all ds (stop_all cs w)
  unfolding stop_all
  stop_all-append [] ds w = refl
  stop_all-append (c ∷ cs) ds w = stop_all-append cs ds (stop_container shell c w)

  pub stop_loop_lem :
      (cs : List ContainerInfo) (k : ℕ) (w : World)
      → stop_loop shell cs k w ≡ (k - length cs, stop_all (take k cs) w)
  unfolding stop_loop stop_all
  stop_loop_lem [] zero w = ground arith
  stop_loop_lem [] (suc k) w = ground arith
  stop_loop_lem (c ∷ cs) zero w = ground arith
  stop_loop_lem (c ∷ cs) (suc k) w = ground (arith, stop_loop_lem cs k (stop_container shell c w))

  -- On any host, the two loops together stop the first containers of the CPU ones followed by the
  -- RAM ones, as many as there are above the quota: the first loop hands what is left of `toKill`
  -- to the second.
  pub trim_highs_lem :
      (l : Listing) (w : World)
      → trim_highs shell l w
        ≡ stop_all
            (take
              (length l.highs_cpu + length l.highs_ram - desired_high_containers)
              (l.highs_cpu ++ l.highs_ram))
            w
  unfolding trim_highs stop_all
  trim_highs_lem l w =
      let surplus = length l.highs_cpu + length l.highs_ram - desired_high_containers in
      ground (
        arith,
        stop_loop_lem l.highs_cpu surplus w,
        stop_loop_lem l.highs_ram (surplus - length l.highs_cpu)
            (stop_all (take surplus l.highs_cpu) w),
        take-append surplus l.highs_cpu l.highs_ram,
        stop_all-append (take surplus l.highs_cpu) (take (surplus - length l.highs_cpu) l.highs_ram)
            w,
      )

  -- The last loop stops the first of the low ones.
  pub trim_lows_lem :
      (l : Listing) (w : World)
      → trim_lows shell l w ≡ stop_all (take (length l.lows - desired_low_containers) l.lows) w
  unfolding trim_lows stop_all
  trim_lows_lem l w =
      ground (arith, stop_loop_lem l.lows (length l.lows - desired_low_containers) w)
