-- ===== src/Database/Whole.antt =====
-- Loops in a transaction, and whole transactions from `Begin` to `Commit`.
use proyecto_1_sopes.Prelude.{
  ◌≡◌, refl, sym, ◌∙◌, ap, false, Option, none, some, List, [], ◌∷◌, Result, ok, err, if◌then◌else◌,
  bytes_key, is_empty,
}
use proyecto_1_sopes.Database.{Tables, Stmt, apply, Engine}
use proyecto_1_sopes.Database.Tx.{Error, Sql, pure, ◌>>◌, or_fail, or_rollback, for_each}
use proyecto_1_sopes.Database.Laws.{IsSqlite, Within, Ends, Atomic, run_all}
use proyecto_1_sopes.Database.Compose.{
  bind-Within, bind-Ends, then_pure-Within, exec_tx-Within, prepare-Within, commit-Ends,
}

module _ {Conn : Type 0} (db : Engine Conn) (laws : IsSqlite db) where
  open laws use {
    tables, saved, begin_keeps, begin_saves, exec_tx_ok, exec_tx_saved, prepare_keeps,
    prepare_saved, query_keeps, query_saved, rollback_restores, commit_ok, commit_err,
  }

  pub for_each-Within :
      {A : Type 0} (g : A → Tables → Tables) (f : A → Sql Conn (Unit {0})) (xs : List A) (c : Conn)
      → ((x : A) (c' : Conn) → Within db laws c' (g x) (f x c'))
      → Within db laws c (run_all g xs) (for_each f xs c)
  unfolding for_each run_all
  for_each-Within g f [] c h = (refl, refl)
  for_each-Within g f (x ∷ xs) c h =
      bind-Within db laws c (g x) (run_all g xs) (f x) (λ _. for_each f xs) (h x c)
        (λ a c' e. for_each-Within g f xs c' h)

  Ends-Atomic :
      {A : Type 0} (c c' : Conn) (f : Tables → Tables) (out : Result Error A × Conn)
      → tables c' ≡ tables c
      → saved c' ≡ tables c
      → Ends db laws c' f out
      → Atomic db laws c f out
  Ends-Atomic c c' f (ok a, c2) t s h = h ∙ ap f t
  Ends-Atomic c c' f (err e, c2) t s h = h ∙ s

  begin_at :
      {A : Type 0} (c : Conn) (e : Error) (f : Tables → Tables) (k : Sql Conn A)
      (r : Option (Unit {0}) × Conn)
      → tables r.1 ≡ tables c
      → (r.0 ≡ some tt → saved r.1 ≡ tables c)
      → ((c' : Conn) → Ends db laws c' f (k c'))
      → Atomic db laws c f ((or_fail e (λ _. r) >> k) c)
  begin_at c e f k (some a, c') t s h = Ends-Atomic c c' f (k c') t (s refl) (h c')
  begin_at c e f k (none, c') t s h = t

  -- `Begin`, and what follows up to the end of the transaction.
  pub tx-Atomic :
      {A : Type 0} (c : Conn) (e : Error) (f : Tables → Tables) (k : Sql Conn A)
      → ((c' : Conn) → Ends db laws c' f (k c'))
      → Atomic db laws c f ((or_fail e db.begin_tx >> k) c)
  tx-Atomic c e f k h = begin_at c e f k (db.begin_tx c) (begin_keeps c) (begin_saves c) h

  pub exec_then_pure-Within :
      (e : Error) (s : Stmt) (c : Conn)
      → Within db laws c (apply s) ((or_rollback db e (db.exec_tx s) >> pure tt) c)
  exec_then_pure-Within e s c =
      then_pure-Within db laws c (apply s) (or_rollback db e (db.exec_tx s))
        (exec_tx-Within db laws e s c)

  -- `Begin`, `Prepare`, a loop of inserts and `Commit`.
  bulk-Atomic :
      {A : Type 0} (g : A → Tables → Tables) (f : A → Sql Conn (Unit {0})) (xs : List A) (c : Conn)
      (begin_failure prepare_failure commit_failure : Error)
      → ((x : A) (c' : Conn) → Within db laws c' (g x) (f x c'))
      → Atomic db laws c (run_all g xs) (
          (or_fail begin_failure db.begin_tx
              >> (or_rollback db prepare_failure db.prepare
                  >> (for_each f xs >> or_fail commit_failure db.commit)))
            c)
  bulk-Atomic g f xs c begin_failure prepare_failure commit_failure h =
      let loop = for_each f xs >> or_fail commit_failure db.commit in
      tx-Atomic c begin_failure (run_all g xs) (or_rollback db prepare_failure db.prepare >> loop)
        (λ c1.
          bind-Ends db laws c1 (λ d. d) (run_all g xs) (or_rollback db prepare_failure db.prepare)
            (λ _. loop) (prepare-Within db laws prepare_failure c1)
            (λ a c2 e.
              bind-Ends db laws c2 (run_all g xs) (λ d. d) (for_each f xs)
                (λ _. or_fail commit_failure db.commit) (for_each-Within g f xs c2 h)
                (λ u c3 e'. commit-Ends db laws commit_failure c3)))

  Atomic-eq :
      {A : Type 0} (c : Conn) (f g : Tables → Tables) (out : Result Error A × Conn)
      → f (tables c) ≡ g (tables c)
      → Atomic db laws c f out
      → Atomic db laws c g out
  Atomic-eq c f g (ok a, c') e h = h ∙ e
  Atomic-eq c f g (err x, c') e h = h

  unless_empty :
      {A : Type 0} (xs : List A) (c : Conn) (f : Tables → Tables) (m : Sql Conn (Unit {0}))
      → (xs ≡ [] → f (tables c) ≡ tables c)
      → (is_empty xs ≡ false → Atomic db laws c f (m c))
      → Atomic db laws c f ((if is_empty xs then pure tt else m) c)
  unless_empty [] c f m e h = sym (e refl)
  unless_empty (x ∷ xs) c f m e h = h refl

  -- The same behind `if len(ys) == 0 { return nil }`, with its effect stated as `goal`.
  pub guarded_bulk-Atomic :
      {A B : Type 0} (ys : List B) (goal : Tables → Tables) (g : A → Tables → Tables)
      (f : A → Sql Conn (Unit {0})) (xs : List A) (c : Conn)
      (begin_failure prepare_failure commit_failure : Error)
      → (ys ≡ [] → goal (tables c) ≡ tables c)
      → (is_empty ys ≡ false → run_all g xs (tables c) ≡ goal (tables c))
      → ((x : A) (c' : Conn) → Within db laws c' (g x) (f x c'))
      → Atomic db laws c goal (
          (if is_empty ys
              then pure tt
              else (or_fail begin_failure db.begin_tx
                  >> (or_rollback db prepare_failure db.prepare
                      >> (for_each f xs >> or_fail commit_failure db.commit))))
            c)
  guarded_bulk-Atomic ys goal g f xs c begin_failure prepare_failure commit_failure none_left same
        h =
      unless_empty ys c goal _ none_left (λ e.
        Atomic-eq c (run_all g xs) goal _ (same e)
          (bulk-Atomic g f xs c begin_failure prepare_failure commit_failure h))
