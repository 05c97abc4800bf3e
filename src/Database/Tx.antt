-- ===== src/Database/Tx.antt =====
-- Actions on the database: `if err != nil { return … }` after each call, inside a transaction with
-- `tx.Rollback()` before the return.
use proyecto_1_sopes.Prelude.{Option, none, some, List, [], ◌∷◌, Result, ok, err, ◌≡◌, refl, arith}
use proyecto_1_sopes.Database.{Engine}

-- Which call failed; the texts of `fmt.Errorf` are left out.
pub data Error : Type 0 where
  exec_failed begin_failed prepare_failed rows_affected_failed last_insert_id_failed : Error
  query_failed scan_failed rows_failed commit_failed : Error

abbrev pub Sql : Type 0 → Type 0 → Type 0
Sql Conn A = Conn → Result Error A × Conn

module _ {Conn : Type 0} where
  abbrev pub pure : {A : Type 0} → A → Sql Conn A
  pure a c = (ok a, c)

  infixl 5 ◌>>=◌ ◌>>◌
  abbrev pub ◌>>=◌ : {A B : Type 0} → Sql Conn A → (A → Sql Conn B) → Sql Conn B
  ◌>>=◌ m f c = let (r, c') = m c in elim r [ ok a ↦ f a c' | err e ↦ (err e, c') ]

  abbrev pub ◌>>◌ : {A B : Type 0} → Sql Conn A → Sql Conn B → Sql Conn B
  m >> k = m >>= λ _. k

  -- `x, err := call; if err != nil { return err }`
  abbrev pub or_fail : {A : Type 0} → Error → (Conn → Option A × Conn) → Sql Conn A
  or_fail e call c = let (r, c') = call c in elim r [ some a ↦ (ok a, c') | none ↦ (err e, c') ]

  -- A field of a result that the driver may not be able to give.
  abbrev pub field_or_fail : {A : Type 0} → Error → Option A → Sql Conn A
  field_or_fail e o c = elim o [ some a ↦ (ok a, c) | none ↦ (err e, c) ]

  -- A loop that returns on the first error.
  unfoldable pub for_each : {A : Type 0} → (A → Sql Conn (Unit {0})) → List A → Sql Conn (Unit {0})
  for_each f [] = pure tt
  for_each f (x ∷ xs) = f x >> for_each f xs

module _ {Conn : Type 0} where
  bind_ok_at :
      {A B : Type 0} (r : Result Error A × Conn) (k : A → Sql Conn B) (c c2 : Conn) (b : B)
      → ((λ _. r) >>= k) c ≡ (ok b, c2)
      → (a : A) × (c1 : Conn) × (r ≡ (ok a, c1)) × (k a c1 ≡ (ok b, c2))
  bind_ok_at (ok a, c1) k c c2 b h = (a, c1, refl, h)
  bind_ok_at (err e, c1) k c c2 b h = absurd (ground arith)

  -- A successful chain is made of successful steps.
  pub bind_ok :
      {A B : Type 0} (m : Sql Conn A) (k : A → Sql Conn B) (c c2 : Conn) (b : B)
      → (m >>= k) c ≡ (ok b, c2)
      → (a : A) × (c1 : Conn) × (m c ≡ (ok a, c1)) × (k a c1 ≡ (ok b, c2))
  bind_ok m k c c2 b h = bind_ok_at (m c) k c c2 b h

module _ {Conn : Type 0} (db : Engine Conn) where
  open db use {rollback}

  -- `x, err := call; if err != nil { tx.Rollback(); return err }`
  abbrev pub or_rollback : {A : Type 0} → Error → (Conn → Option A × Conn) → Sql Conn A
  or_rollback e call c =
      let (r, c') = call c in elim r [ some a ↦ (ok a, c') | none ↦ (err e, rollback c') ]

  abbrev pub field_or_rollback : {A : Type 0} → Error → Option A → Sql Conn A
  field_or_rollback e o c = elim o [ some a ↦ (ok a, c) | none ↦ (err e, rollback c) ]
