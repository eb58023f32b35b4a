-- ===== src/Database/Refused.antt =====
-- The statement "insert_snapshot" of sadapter.cpp, which names 113 columns and has 117 expressions for them.
use datafeed_server.Prelude.{
  Bool, true, false, ◌&&◌, none, ◌≡◌, refl, ap, ◌∙◌, inl, inr, length, Bool-cases, arith,
}
use datafeed_server.Database.Statements.{
  Statement, insert_snapshot, metric_columns, placeholders, monitoring_statements,
}
use datafeed_server.Database.Summaries.{DbSnapshot, snapshot_values}
use datafeed_server.Database.Adapter.{
  Postgres, SAdapter, connect, create, created, create_feed_metrics_snapshot, prepare_all,
}

columns_of_insert_snapshot : length insert_snapshot.columns ≡ 113
unfolding insert_snapshot metric_columns
columns_of_insert_snapshot = refl

values_of_insert_snapshot : length insert_snapshot.values ≡ 117
unfolding insert_snapshot placeholders
values_of_insert_snapshot = refl

and_false : (b : Bool) → (b && false) ≡ false
and_false true = refl
and_false false = refl

module _ {D : Type 0} (postgres : Postgres D) where
  open postgres use {accepts, asked_at_once, accepts_matching, exec_insert, exec_refused}

  insert_snapshot-refused : accepts (Statement.insert insert_snapshot) ≡ false
  insert_snapshot-refused = elim (Bool-cases (accepts (Statement.insert insert_snapshot))) [
    | inl yes_it_does ↦ absurd (
        omega (
          arith,
          accepts_matching insert_snapshot yes_it_does,
          columns_of_insert_snapshot,
          values_of_insert_snapshot,
        ))
    | inr refused ↦ refused
  ]

  pub create-refused :
      (s : DbSnapshot D) (a : SAdapter postgres)
      → create_feed_metrics_snapshot postgres s a ≡ (none, a)
  unfolding create_feed_metrics_snapshot create
  create-refused s a =
      let failed : exec_insert insert_snapshot (snapshot_values s) a.tables ≡ none =
        exec_refused insert_snapshot (snapshot_values s) a.tables insert_snapshot-refused in
      elim (Bool-cases a.is_connected) [
        | inl e ↦ rw (e, failed) (unfold created in refl)
        | inr e ↦ rw e refl
      ]

  connect-refused :
      (opens : Bool) (a : SAdapter postgres)
      → asked_at_once ≡ true
      → (connect postgres opens a).0 ≡ false
  unfolding connect prepare_all monitoring_statements
  connect-refused true a h = rw (h, insert_snapshot-refused) refl
  connect-refused false a h = refl

  -- No snapshot can ever be stored, since the INSERT has four expressions more than columns: with a PostgreSQL
  -- that refuses such a statement, `create_feed_metrics_snapshot` always fails and changes nothing; and
  -- where statements are checked when they are prepared, `connect` never reports success.
  pub snapshots-refused :
      (s : DbSnapshot D) (opens : Bool) (a : SAdapter postgres)
      → (create_feed_metrics_snapshot postgres s a ≡ (none, a))
        × (((connect postgres opens a).0 && asked_at_once) ≡ false)
  snapshots-refused s opens a = (
    create-refused s a,
    elim (Bool-cases asked_at_once) [
      | inl h ↦ ap (λ b. b && asked_at_once) (connect-refused opens a h)
      | inr h ↦
          ap (λ b. (connect postgres opens a).0 && b) h ∙ and_false (connect postgres opens a).0
    ],
  )
