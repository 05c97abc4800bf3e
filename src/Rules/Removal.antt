-- ===== src/Rules/Removal.antt =====
-- Lists of containers from which those with given ids are taken out.
use proyecto_1_sopes.Prelude.{
  ℕ, zero, suc, ◌-◌, ◌≡◌, refl, true, false, Bool, ◌||◌, not, [], ◌∷◌, ◌++◌, List, arith, Bytes, ap,
  length, select, take, contains, IsDistinct, ◌==◌, bytes_eq_iff, bytes_key,
}
use proyecto_1_sopes.Rules.{ContainerInfo}

abbrev pub ids : List ContainerInfo → List Bytes
ids [] = []
ids (c ∷ cs) = c.id ∷ ids cs

-- The containers whose id is not one of `xs`.
abbrev pub without : List Bytes → List ContainerInfo → List ContainerInfo
without xs = select (λ d. not (contains d.id xs))

pub without_nil : (cs : List ContainerInfo) → without [] cs ≡ cs
without_nil [] = refl
without_nil (c ∷ cs) = ap (◌∷◌ c) (without_nil cs)

pub without_cons :
    (x : Bytes) (xs : List Bytes) (cs : List ContainerInfo)
    → without xs (select (λ d. not (x == d.id)) cs) ≡ without (x ∷ xs) cs
without_cons x xs [] = refl
without_cons x xs (c ∷ cs) = ground (arith, without_cons x xs cs)

module _ (p : ContainerInfo → Bool) where
  pub select-without :
      (xs : List Bytes) (cs : List ContainerInfo)
      → select p (without xs cs) ≡ without xs (select p cs)
  select-without xs [] = refl
  select-without xs (c ∷ cs) = ground (arith, select-without xs cs)

  -- Ids of selected containers are ids of the list.
  pub contains-ids-select :
      (k : Bytes) (cs : List ContainerInfo)
      → contains k (ids cs) ≡ false
      → contains k (ids (select p cs)) ≡ false
  contains-ids-select k [] h = refl
  contains-ids-select k (c ∷ cs) h = ground (arith, contains-ids-select k cs)

  pub select-IsDistinct :
      (cs : List ContainerInfo) → IsDistinct (ids cs) → IsDistinct (ids (select p cs))
  select-IsDistinct [] h = tt
  select-IsDistinct (c ∷ cs) h =
      ground (arith, contains-ids-select c.id cs, select-IsDistinct cs h.1)

-- An id that is not listed anywhere in `cs` may be dropped from the ids that are taken out.
pub without_absent :
    (x : Bytes) (xs : List Bytes) (cs : List ContainerInfo)
    → contains x (ids cs) ≡ false
    → without (x ∷ xs) cs ≡ without xs cs
without_absent x xs [] h = refl
without_absent x xs (c ∷ cs) h =
    ground (arith, bytes_eq_iff x c.id, bytes_eq_iff c.id x, without_absent x xs cs)

-- Taking out the first `n` of a list with distinct ids leaves the others: their number.
pub length-without-take :
    (n : ℕ) (cs : List ContainerInfo)
    → IsDistinct (ids cs)
    → length (without (ids (take n cs)) cs) ≡ length cs - n
length-without-take zero [] h = ground arith
length-without-take zero (c ∷ cs) h = ground (arith, ap length (without_nil cs))
length-without-take (suc n) [] h = ground arith
length-without-take (suc n) (c ∷ cs) h = ground (
  arith,
  bytes_eq_iff c.id c.id,
  without_absent c.id (ids (take n cs)) cs h.0,
  length-without-take n cs h.1,
)

-- Two lists share no id.
abbrev pub AreDisjoint : List ContainerInfo → List Bytes → Type 0
AreDisjoint [] xs = Unit
AreDisjoint (c ∷ cs) xs = (contains c.id xs ≡ false) × AreDisjoint cs xs

pub without_disjoint :
    (xs : List Bytes) (cs : List ContainerInfo) → AreDisjoint cs xs → without xs cs ≡ cs
without_disjoint xs [] h = refl
without_disjoint xs (c ∷ cs) h = ground (arith, without_disjoint xs cs h.1)

pub contains-ids-take :
    (k : Bytes) (n : ℕ) (cs : List ContainerInfo)
    → contains k (ids cs) ≡ false
    → contains k (ids (take n cs)) ≡ false
contains-ids-take k zero cs h = refl
contains-ids-take k (suc n) [] h = refl
contains-ids-take k (suc n) (c ∷ cs) h = ground (arith, contains-ids-take k n cs)

pub contains-ids-append :
    (k : Bytes) (cs ds : List ContainerInfo)
    → contains k (ids (cs ++ ds)) ≡ (contains k (ids cs) || contains k (ids ds))
contains-ids-append k [] ds = refl
contains-ids-append k (c ∷ cs) ds = ground (arith, contains-ids-append k cs ds)

pub AreDisjoint-take :
    (n : ℕ) (cs ds : List ContainerInfo)
    → AreDisjoint cs (ids ds)
    → AreDisjoint cs (ids (take n ds))
AreDisjoint-take n [] ds h = tt
AreDisjoint-take n (c ∷ cs) ds h = (contains-ids-take c.id n ds h.0, AreDisjoint-take n cs ds h.1)

pub AreDisjoint-append :
    (cs ds es : List ContainerInfo)
    → AreDisjoint cs (ids ds)
    → AreDisjoint cs (ids es)
    → AreDisjoint cs (ids (ds ++ es))
AreDisjoint-append [] ds es h k = tt
AreDisjoint-append (c ∷ cs) ds es h k =
    (ground (arith, contains-ids-append c.id ds es, h.0, k.0), AreDisjoint-append cs ds es h.1 k.1)

AreDisjoint-cons :
    (d : ContainerInfo) (cs : List ContainerInfo) (xs : List Bytes)
    → contains d.id (ids cs) ≡ false
    → AreDisjoint cs xs
    → AreDisjoint cs (d.id ∷ xs)
AreDisjoint-cons d [] xs h k = tt
AreDisjoint-cons d (c ∷ cs) xs h k =
    ground (arith, bytes_eq_iff d.id c.id, bytes_eq_iff c.id d.id, AreDisjoint-cons d cs xs)

-- Containers of two kinds that exclude one another share no id, if the ids of all are distinct.
pub kinds-AreDisjoint :
    (p q : ContainerInfo → Bool) (cs : List ContainerInfo)
    → ((c : ContainerInfo) → p c ≡ true → q c ≡ false)
    → IsDistinct (ids cs)
    → AreDisjoint (select p cs) (ids (select q cs))
kinds-AreDisjoint p q [] ex h = tt
kinds-AreDisjoint p q (c ∷ cs) ex h = ground (
  arith,
  ex c,
  contains-ids-select q c.id cs,
  AreDisjoint-cons c (select p cs) (ids (select q cs)) (contains-ids-select p c.id cs h.0),
  kinds-AreDisjoint p q cs ex h.1,
)

-- Distinct lists that share no id are distinct together.
pub append-IsDistinct :
    (cs ds : List ContainerInfo)
    → IsDistinct (ids cs)
    → IsDistinct (ids ds)
    → AreDisjoint cs (ids ds)
    → IsDistinct (ids (cs ++ ds))
append-IsDistinct [] ds h k e = k
append-IsDistinct (c ∷ cs) ds h k e =
    (ground (arith, contains-ids-append c.id cs ds, h.0, e.0), append-IsDistinct cs ds h.1 k e.1)
