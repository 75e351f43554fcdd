-- ===== src/Query/Executor/Execute.antt =====
-- api/querylang/executor/executor.go: `Execute`, over the interfaces SQLRunner and SearchClient,
-- which are the parameters `run_sql` and `search`.
use cairnobs.Base.{ℕ, List, [], ◌∷◌, Text, is_empty, if◌then◌else◌, ◌≡◌, refl}
use cairnobs.Base.Int.{ℤ}
use cairnobs.Base.Results.{Result, ok, err}
use cairnobs.Query.Executor.Scanner.{IsClosed}
use cairnobs.Query.Executor.Sql.{build_sql}
use cairnobs.Query.Executor.Statement.{build_sql-IsClosed}
use cairnobs.Query.Ir.{TextPredicate, Plan}
use cairnobs.Query.Planner.Sound.{IsPlan}

abbrev pub text_search_limit : ℕ
text_search_limit = 5000

-- `SearchError` wraps the error of the search client.
pub data ExecuteError (E : Type 0) : Type 0 where
  search_failed : E → ExecuteError E
  sql_failed : E → ExecuteError E

module _ {E R : Type 0} (format_time : ℤ → Text) (run_sql : Text → Result E R)
    (search : Text → ℕ → Result E (List Text)) (empty_result : R) where
  abbrev sql_result : Result E R → Result (ExecuteError E) R
  sql_result (ok r) = ok r
  sql_result (err e) = err (sql_failed e)

  -- What `Execute` does with the ids of the prefilter.
  unfoldable pub with_ids : Plan → List Text → Result (ExecuteError E) R
  with_ids plan [] = ok empty_result
  with_ids plan (i ∷ is) = sql_result (run_sql (build_sql format_time plan (i ∷ is)))

  abbrev search_result : Plan → Result E (List Text) → Result (ExecuteError E) R
  search_result plan (ok ids) = with_ids plan ids
  search_result plan (err e) = err (search_failed e)

  unfoldable pub run_plan : Plan → List TextPredicate → Result (ExecuteError E) R
  run_plan plan [] = sql_result (run_sql (build_sql format_time plan []))
  run_plan plan (t ∷ ts) = search_result plan (search t.query text_search_limit)

  unfoldable pub execute : Plan → Result (ExecuteError E) R
  execute plan =
      if is_empty plan.raw_sql
      then run_plan plan plan.text_search
      else sql_result (run_sql plan.raw_sql)

  -- The ways in which a plan without raw SQL is executed, by its text searches and by what the
  -- search answers to the first of them.
  pub data Executed (plan : Plan) : Result (ExecuteError E) R → Type 0 where
    unsearched :
        plan.text_search ≡ []
        → IsClosed (build_sql format_time plan [])
        → Executed plan (sql_result (run_sql (build_sql format_time plan [])))
    search_error :
        {t : TextPredicate} {ts : List TextPredicate} {e : E}
        → plan.text_search ≡ t ∷ ts
        → search t.query text_search_limit ≡ err e
        → Executed plan (err (search_failed e))
    no_match :
        {t : TextPredicate} {ts : List TextPredicate}
        → plan.text_search ≡ t ∷ ts
        → search t.query text_search_limit ≡ ok []
        → Executed plan (ok empty_result)
    matched :
        {t : TextPredicate} {ts : List TextPredicate} {i : Text} {is : List Text}
        → plan.text_search ≡ t ∷ ts
        → search t.query text_search_limit ≡ ok (i ∷ is)
        → IsClosed (build_sql format_time plan (i ∷ is))
        → Executed plan (sql_result (run_sql (build_sql format_time plan (i ∷ is))))

  searched :
      (plan : Plan) (t : TextPredicate) (ts : List TextPredicate) (m : Result E (List Text))
      → IsPlan plan
      → plan.text_search ≡ t ∷ ts
      → search t.query text_search_limit ≡ m
      → Executed plan (search_result plan m)
  unfolding with_ids
  searched plan t ts (ok []) w p e = no_match p e
  searched plan t ts (ok (i ∷ is)) w p e =
      matched p e (build_sql-IsClosed format_time plan (i ∷ is) w)
  searched plan t ts (err x) w p e = search_error p e

  -- Executing a plan of a pipe query without a text search gives what ClickHouse answers to the
  -- statement built for the plan with no ids. With one, the first text is searched for: the
  -- result is the search's error, the empty result where the search finds nothing, and else what
  -- ClickHouse answers to the statement built with just the ids found. The quotes of the statement
  -- are closed.
  pub execute-Executed : (plan : Plan) → IsPlan plan → Executed plan (execute plan)
  unfolding execute is_empty
  execute-Executed plan w = simp w.no_raw_sql (by_search plan.text_search refl)
    where
      by_search :
          (ts : List TextPredicate) → plan.text_search ≡ ts → Executed plan (run_plan plan ts)
      by_search [] p = unfold run_plan in unsearched p (build_sql-IsClosed format_time plan [] w)
      by_search (t ∷ ts) p =
          unfold run_plan in searched plan t ts (search t.query text_search_limit) w p refl
