-- ===== src/Rules/Loss.antt =====
-- Lists of containers from which a pass has taken some: what is left of each class.
use Prim.Native.Nat.{min}
use proyecto_1_sopes.Prelude.{
  ℕ, ◌-◌, ◌≤◌, ◌≡◌, sym, ◌∙◌, ap, true, false, Bool, not, [], ◌∷◌, ◌++◌, List, Bytes, bytes_key,
  ◌&&◌, arith, length, select, contains, IsDistinct,
}
use proyecto_1_sopes.Rules.{ContainerInfo, desired_low_containers, desired_high_containers}
use proyecto_1_sopes.Rules.Reading.{is_low, is_high_cpu, is_high_ram, low_not_cpu, low_not_ram}
use proyecto_1_sopes.Rules.Removal.{
  ids, without, without_nil, select-without, select-IsDistinct, length-without-take,
  without_disjoint, AreDisjoint-take, AreDisjoint-append, kinds-AreDisjoint,
}
use proyecto_1_sopes.Rules.Quota.{surplus_highs, surplus_lows, lows-surplus_highs}
use proyecto_1_sopes.Rules.Counts.{low_count, high_count, high_count-kept}

-- The second list is the first without some of these ids.
abbrev pub Loses : List Bytes → List ContainerInfo → List ContainerInfo → Type 0
Loses xs cs ds =
    (ks : List Bytes) × ((k : Bytes) → contains k ks ≡ true → contains k xs ≡ true)
    × (ds ≡ without ks cs)

pub Loses-nothing : (xs : List Bytes) (cs : List ContainerInfo) → Loses xs cs cs
Loses-nothing xs cs = ([], (λ k h. absurd (ground arith)), sym (without_nil cs))

pub contains-cons :
    (x : Bytes) (ks xs : List Bytes)
    → ((k : Bytes) → contains k ks ≡ true → contains k xs ≡ true)
    → (k : Bytes) → contains k (x ∷ ks) ≡ true
    → contains k (x ∷ xs) ≡ true
contains-cons x ks xs h k e = ground (arith, h k)

-- Losing fewer leaves at least as many of each kind.
count-without :
    (p : ContainerInfo → Bool) (ks xs : List Bytes) (cs : List ContainerInfo)
    → ((k : Bytes) → contains k ks ≡ true → contains k xs ≡ true)
    → length (select p (without xs cs)) ≤ length (select p (without ks cs))
count-without p ks xs [] h = ground arith
count-without p ks xs (c ∷ cs) h = ground (arith, h c.id, count-without p ks xs cs h)

-- The containers that no rule is about.
abbrev pub is_other : ContainerInfo → Bool
is_other c = not (is_low c) && (not (is_high_cpu c) && not (is_high_ram c))

abbrev pub other_count : List ContainerInfo → ℕ
other_count cs = length (select is_other cs)

module _ (cs ds : List ContainerInfo) (d : IsDistinct (ids cs)) where
  others-surplus_highs : select is_other (without (ids (surplus_highs cs)) cs) ≡ select is_other cs
  others-surplus_highs =
      let others = select is_other cs in
      select-without is_other (ids (surplus_highs cs)) cs
      ∙ without_disjoint (ids (surplus_highs cs)) others (
          AreDisjoint-take (high_count cs - desired_high_containers) others
            (select is_high_cpu cs ++ select is_high_ram cs)
            (AreDisjoint-append others (select is_high_cpu cs) (select is_high_ram cs)
              (kinds-AreDisjoint is_other is_high_cpu cs (λ c h. ground arith) d)
              (kinds-AreDisjoint is_other is_high_ram cs (λ c h. ground arith) d)))

  pub Loses-surplus_highs :
      Loses (ids (surplus_highs cs)) cs ds
      → (low_count cs ≤ low_count ds)
        × (min desired_high_containers (high_count cs) ≤ high_count ds)
        × (other_count cs ≤ other_count ds)
  Loses-surplus_highs (ks, sub, e) =
      let xs = ids (surplus_highs cs) in
      rw e (
        (
          omega (arith, ap length (lows-surplus_highs cs d), count-without is_low ks xs cs sub),
          omega (
            arith,
            high_count-kept cs d,
            count-without is_high_cpu ks xs cs sub,
            count-without is_high_ram ks xs cs sub,
          ),
          omega (arith, ap length others-surplus_highs, count-without is_other ks xs cs sub),
        ))

  keeps_others :
      (p : ContainerInfo → Bool)
      → ((c : ContainerInfo) → p c ≡ true → is_low c ≡ false)
      → select p (without (ids (surplus_lows cs)) cs) ≡ select p cs
  keeps_others p ex =
      select-without p (ids (surplus_lows cs)) cs
      ∙ without_disjoint (ids (surplus_lows cs)) (select p cs) (
          AreDisjoint-take (low_count cs - desired_low_containers) (select p cs) (select is_low cs)
            (kinds-AreDisjoint p is_low cs ex d))

  pub Loses-surplus_lows :
      Loses (ids (surplus_lows cs)) cs ds
      → (min desired_low_containers (low_count cs) ≤ low_count ds)
        × (high_count cs ≤ high_count ds)
        × (other_count cs ≤ other_count ds)
  Loses-surplus_lows (ks, sub, e) =
      let xs = ids (surplus_lows cs) in
      rw e (
        (
          omega (
            arith,
            ap length (select-without is_low xs cs),
            length-without-take (low_count cs - desired_low_containers) (select is_low cs)
                (select-IsDistinct is_low cs d),
            count-without is_low ks xs cs sub,
          ),
          omega (
            arith,
            ap length (keeps_others is_high_cpu (λ c h. ground (arith, low_not_cpu c))),
            ap length (keeps_others is_high_ram (λ c h. ground (arith, low_not_ram c))),
            count-without is_high_cpu ks xs cs sub,
            count-without is_high_ram ks xs cs sub,
          ),
          omega (
            arith,
            ap length (keeps_others is_other (λ c h. ground arith)),
            count-without is_other ks xs cs sub,
          ),
        ))
