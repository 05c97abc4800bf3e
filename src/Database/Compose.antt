-- ===== src/Database/Compose.antt =====
-- How the actions of a transaction compose, and what one call does.
use proyecto_1_sopes.Prelude.{
  ◌≡◌, refl, ◌∙◌, ap, Bool, true, false, Option, none, some, Result, ok, err, if◌then◌else◌,
  bytes_key, arith,
}
use proyecto_1_sopes.Database.{Tables, Stmt, apply, Engine}
use proyecto_1_sopes.Database.Tx.{
  Error, Sql, pure, ◌>>=◌, ◌>>◌, or_fail, or_rollback, field_or_rollback,
}
use proyecto_1_sopes.Database.Laws.{IsSqlite, Within, Ends}

module _ {Conn : Type 0} (db : Engine Conn) (laws : IsSqlite db) where
  open laws use {
    tables, saved, begin_keeps, begin_saves, exec_tx_ok, exec_tx_saved, prepare_keeps,
    prepare_saved, query_keeps, query_saved, rollback_restores, commit_ok, commit_err,
  }

  after-Within :
      {A B : Type 0} (c c' : Conn) (f g : Tables → Tables) (a : A) (out : Result Error B × Conn)
      → Within db laws c f (ok a, c')
      → Within db laws c' g out
      → Within db laws c (λ d. g (f d)) out
  after-Within c c' f g a (ok b, c2) h k = (k.0 ∙ ap g h.0, k.1 ∙ h.1)
  after-Within c c' f g a (err e, c2) h k = k ∙ h.1

  after-Ends :
      {A B : Type 0} (c c' : Conn) (f g : Tables → Tables) (a : A) (out : Result Error B × Conn)
      → Within db laws c f (ok a, c')
      → Ends db laws c' g out
      → Ends db laws c (λ d. g (f d)) out
  after-Ends c c' f g a (ok b, c2) h k = k ∙ ap g h.0
  after-Ends c c' f g a (err e, c2) h k = k ∙ h.1

  -- A call's outcome is a variable in the lemmas on `_at`, so that it can be matched.
  bind-Within_at :
      {A B : Type 0} (c : Conn) (f g : Tables → Tables) (r : Result Error A × Conn)
      (k : A → Sql Conn B)
      → Within db laws c f r
      → ((a : A) (c' : Conn) → r ≡ (ok a, c') → Within db laws c' g (k a c'))
      → Within db laws c (λ d. g (f d)) (((λ _. r) >>= k) c)
  bind-Within_at c f g (ok a, c') k h next = after-Within c c' f g a (k a c') h (next a c' refl)
  bind-Within_at c f g (err x, c') k h next = h

  pub bind-Within :
      {A B : Type 0} (c : Conn) (f g : Tables → Tables) (m : Sql Conn A) (k : A → Sql Conn B)
      → Within db laws c f (m c)
      → ((a : A) (c' : Conn) → m c ≡ (ok a, c') → Within db laws c' g (k a c'))
      → Within db laws c (λ d. g (f d)) ((m >>= k) c)
  bind-Within c f g m k h next = bind-Within_at c f g (m c) k h next

  bind-Ends_at :
      {A B : Type 0} (c : Conn) (f g : Tables → Tables) (r : Result Error A × Conn)
      (k : A → Sql Conn B)
      → Within db laws c f r
      → ((a : A) (c' : Conn) → r ≡ (ok a, c') → Ends db laws c' g (k a c'))
      → Ends db laws c (λ d. g (f d)) (((λ _. r) >>= k) c)
  bind-Ends_at c f g (ok a, c') k h next = after-Ends c c' f g a (k a c') h (next a c' refl)
  bind-Ends_at c f g (err x, c') k h next = h

  pub bind-Ends :
      {A B : Type 0} (c : Conn) (f g : Tables → Tables) (m : Sql Conn A) (k : A → Sql Conn B)
      → Within db laws c f (m c)
      → ((a : A) (c' : Conn) → m c ≡ (ok a, c') → Ends db laws c' g (k a c'))
      → Ends db laws c (λ d. g (f d)) ((m >>= k) c)
  bind-Ends c f g m k h next = bind-Ends_at c f g (m c) k h next

  or_rollback_at :
      {A : Type 0} (e : Error) (f : Tables → Tables) (c : Conn) (r : Option A × Conn)
      → ((a : A) → r.0 ≡ some a → tables r.1 ≡ f (tables c))
      → saved r.1 ≡ saved c
      → Within db laws c f (or_rollback db e (λ _. r) c)
  or_rollback_at e f c (some a, c') h k = (h a refl, k)
  or_rollback_at e f c (none, c') h k = rollback_restores c' ∙ k

  -- What success says of a call.
  or_rollback_ok_at :
      {A : Type 0} (e : Error) (r : Option A × Conn) (c c' : Conn) (a : A)
      → or_rollback db e (λ _. r) c ≡ (ok a, c')
      → (r.0 ≡ some a) × (r.1 ≡ c')
  or_rollback_ok_at e (some b, c1) c c' a h = ground arith
  or_rollback_ok_at e (none, c1) c c' a h = ground arith

  pub or_rollback_ok :
      {A : Type 0} (e : Error) (call : Conn → Option A × Conn) (c c' : Conn) (a : A)
      → or_rollback db e call c ≡ (ok a, c')
      → ((call c).0 ≡ some a) × ((call c).1 ≡ c')
  or_rollback_ok e call c c' a h = or_rollback_ok_at e (call c) c c' a h

  pub field_ok :
      {A : Type 0} (e : Error) (o : Option A) (c c' : Conn) (a : A)
      → field_or_rollback db e o c ≡ (ok a, c')
      → (o ≡ some a) × (c ≡ c')
  field_ok e (some b) c c' a h = ground arith
  field_ok e none c c' a h = ground arith

  pub Within-eq :
      {A : Type 0} (c : Conn) (f g : Tables → Tables) (out : Result Error A × Conn)
      → f (tables c) ≡ g (tables c)
      → Within db laws c f out
      → Within db laws c g out
  Within-eq c f g (ok a, c') e h = (h.0 ∙ e, h.1)
  Within-eq c f g (err x, c') e h = h

  pub Ends-eq :
      {A : Type 0} (c : Conn) (f g : Tables → Tables) (out : Result Error A × Conn)
      → f (tables c) ≡ g (tables c)
      → Ends db laws c f out
      → Ends db laws c g out
  Ends-eq c f g (ok a, c') e h = h ∙ e
  Ends-eq c f g (err x, c') e h = h

  -- The effect may be stated in another way that agrees when the action succeeds.
  pub Ends-ok :
      {A : Type 0} (c : Conn) (f g : Tables → Tables) (out : Result Error A × Conn)
      → ((a : A) (c' : Conn) → out ≡ (ok a, c') → f (tables c) ≡ g (tables c))
      → Ends db laws c f out
      → Ends db laws c g out
  Ends-ok c f g (ok a, c') e h = h ∙ e a c' refl
  Ends-ok c f g (err x, c') e h = h

  pub pure-Within : {A : Type 0} (a : A) (c : Conn) → Within db laws c (λ d. d) (ok a, c)
  pure-Within a c = (refl, refl)

  pub if-Within :
      {A : Type 0} (b : Bool) (c : Conn) (f g : Tables → Tables) (m k : Sql Conn A)
      → Within db laws c f (m c)
      → Within db laws c g (k c)
      → Within db laws c (λ d. if b then f d else g d) ((if b then m else k) c)
  if-Within true c f g m k h j = h
  if-Within false c f g m k h j = j

  -- A call whose value is not used.
  pub then_pure-Within :
      {A : Type 0} (c : Conn) (f : Tables → Tables) (m : Sql Conn A)
      → Within db laws c f (m c)
      → Within db laws c f ((m >> pure tt) c)
  then_pure-Within c f m h = bind-Within c f (λ d. d) m (λ _. pure tt) h (λ a c' e. (refl, refl))

  -- One statement.
  pub exec_tx-Within :
      (e : Error) (s : Stmt) (c : Conn)
      → Within db laws c (apply s) (or_rollback db e (db.exec_tx s) c)
  exec_tx-Within e s c =
      or_rollback_at e (apply s) c (db.exec_tx s c) (λ r h. exec_tx_ok s c h) (exec_tx_saved s c)

  pub prepare-Within :
      (e : Error) (c : Conn) → Within db laws c (λ d. d) (or_rollback db e db.prepare c)
  prepare-Within e c =
      or_rollback_at e (λ d. d) c (db.prepare c) (λ _ _. prepare_keeps c) (prepare_saved c)

  pub query-Within :
      (e : Error) (c : Conn) → Within db laws c (λ d. d) (or_rollback db e db.query_open c)
  query-Within e c =
      or_rollback_at e (λ d. d) c (db.query_open c) (λ _ _. query_keeps c) (query_saved c)

  pub field-Within :
      {A : Type 0} (e : Error) (o : Option A) (c : Conn)
      → Within db laws c (λ d. d) (field_or_rollback db e o c)
  field-Within e (some a) c = (refl, refl)
  field-Within e none c = rollback_restores c

  commit_at :
      (e : Error) (c : Conn) (r : Option (Unit {0}) × Conn)
      → (r.0 ≡ some tt → tables r.1 ≡ tables c)
      → (r.0 ≡ none → tables r.1 ≡ saved c)
      → Ends db laws c (λ d. d) (or_fail e (λ _. r) c)
  commit_at e c (some a, c') h k = h refl
  commit_at e c (none, c') h k = k refl

  pub commit-Ends : (e : Error) (c : Conn) → Ends db laws c (λ d. d) (or_fail e db.commit c)
  commit-Ends e c = commit_at e c (db.commit c) (commit_ok c) (commit_err c)
