-- ===== src/Hub/Gate/Rules.antt =====
-- What holds of a statement's outcome, whether Postgres runs it or fails it.
use wkp.Base.{Bool, true, false, List, [], ◌∷◌}
use wkp.Hub.Reply.{Rendered, Handler, resume, match_result}
use wkp.Hub.Store.{
  Error, Result, ok, err, postgres, Db, World, statement, query, statement_with, run, query,
}

statement_with_rule :
    {A : Type 0}
    → (Q : Result A × World → Type 0) → (f : Db → Result A × Db) → (faults : List Bool) → (db : Db)
    → ((fs : List Bool) → Q (err postgres, record { db = db; faults = fs }))
    → ((fs : List Bool) → Q (run f fs db))
    → Q (statement_with f faults db)
statement_with_rule Q f [] db failed ran = ran []
statement_with_rule Q f (true ∷ fs) db failed ran = failed fs
statement_with_rule Q f (false ∷ fs) db failed ran = ran fs

-- What holds of a failed statement, and of one that is run, holds of a statement.
pub statement_rule :
    {A : Type 0}
    → (Q : Result A × World → Type 0) → (f : Db → Result A × Db) → (w : World)
    → ((fs : List Bool) → Q (err postgres, record { db = w.db; faults = fs }))
    → ((fs : List Bool) → Q (run f fs w.db))
    → Q (statement f w)
statement_rule Q f w = statement_with_rule Q f w.faults w.db

-- The same for `match` on the result of a statement.
pub match_rule :
    {A : Type 0}
    → (P : Rendered × World → Type 0) → (f : Db → Result A × Db) → (failed : Error → Rendered)
    → (k : A → Handler) → (w : World)
    → ((fs : List Bool) → P (failed postgres, record { db = w.db; faults = fs }))
    → ((fs : List Bool) → P (resume failed k (run f fs w.db)))
    → P (match_result (statement f) failed k w)
match_rule P f failed k = statement_rule (λ x. P (resume failed k x)) f

-- The same for `match` on the result of a query.
pub query_rule :
    {A : Type 0}
    → (P : Rendered × World → Type 0) → (f : Db → A) → (failed : Error → Rendered)
    → (k : A → Handler) → (w : World)
    → ((fs : List Bool) → P (failed postgres, record { db = w.db; faults = fs }))
    → ((fs : List Bool) → P (k (f w.db) (record { db = w.db; faults = fs })))
    → P (match_result (query f) failed k w)
query_rule P f failed k w = match_rule P (λ db. (ok (f db), db)) failed k w
