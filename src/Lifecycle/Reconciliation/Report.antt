-- ===== src/Lifecycle/Reconciliation/Report.antt =====
-- What a reconciliation reports: every row once, and a dry run what the real run does.
use carestechs_agent_orchest.Prelude.{
  ℕ, ◌+◌, suc, String, ◌≡◌, ◌≢◌, refl, sym, ap, ◌∙◌, Bool, true, false, Option, none, some, List,
  [], ◌∷◌, ◌++◌, length, str_eq, Error, Result, ok, err, integrity, engine_failure, arith,
  if◌then◌else◌, Result-cases, inl, inr, ◌⊎◌,
}
use carestechs_agent_orchest.Lifecycle.Store.{
  PendingAuxWrite, Db, Session, find_task, find_work_item,
}
use carestechs_agent_orchest.Lifecycle.Reactor.Outbox.{build_aux_row, insert_aux_row}
use carestechs_agent_orchest.Lifecycle.Reconciliation.Drain.{
  Outcome, Report, empty_report, engine_item, signal_target_state, apply, reconcile_one, drain,
  reconcile, by_age, counted, scanned_one, failed, ends_run, conclude,
}

-- The outcome of a row, as a function of the tables and of the engine.
unfoldable pub classify : (ℕ → Option (Option String)) → PendingAuxWrite → Db → Result Outcome
unfolding signal_target_state
classify get_item_state p db = elim (engine_item p db) [
  | none ↦ ok Outcome.unknown
  | some item ↦ elim (signal_target_state p.signal_name) [
    | none ↦ ok Outcome.materialized
    | some target ↦ elim (get_item_state item) [
      | none ↦ err engine_failure
      | some none ↦ ok Outcome.unknown
      | some (some state) ↦
          if str_eq state target then ok Outcome.materialized else ok Outcome.stale
    ]
  ]
]

apply-frame :
    (p : PendingAuxWrite) (s : Session)
    → ((apply p s).1.db.tasks ≡ s.db.tasks) × ((apply p s).1.db.work_items ≡ s.db.work_items)
unfolding apply build_aux_row insert_aux_row
apply-frame p s = (ground arith, ground arith)

apply-fails :
    (p : PendingAuxWrite) (s : Session) (e : Error) → (apply p s).0 ≡ err e → e ≡ integrity
unfolding apply build_aux_row insert_aux_row
apply-fails p s e h = ground arith

-- The answer of a row, from that of the write of its auxiliary row.
abbrev with_apply : Result {0} Unit → Result Outcome → Result Outcome
with_apply (err e) (ok Outcome.materialized) = err e
with_apply _ c = c

module _ (g : ℕ → Option (Option String)) (p : PendingAuxWrite) (s : Session) where
  dry_one : reconcile_one g true p s ≡ (classify g p s.db, s)
  unfolding reconcile_one classify
  dry_one = ground arith

  real_one : (reconcile_one g false p s).0 ≡ with_apply (apply p s).0 (classify g p s.db)
  unfolding reconcile_one classify
  real_one = ground arith

  real_one-tasks : (reconcile_one g false p s).1.db.tasks ≡ s.db.tasks
  unfolding reconcile_one
  real_one-tasks = ground (arith, (apply-frame p s).0)

  real_one-work_items : (reconcile_one g false p s).1.db.work_items ≡ s.db.work_items
  unfolding reconcile_one
  real_one-work_items = ground (arith, (apply-frame p s).1)

classify-same :
    (g : ℕ → Option (Option String)) (p : PendingAuxWrite) (db db' : Db)
    → db.tasks ≡ db'.tasks
    → db.work_items ≡ db'.work_items
    → classify g p db ≡ classify g p db'
unfolding classify engine_item find_task find_work_item
classify-same g p db db' e f = rw (e, f) refl

-- The answers of a row that do not end the run.
going_on :
    (g : ℕ → Option (Option String)) (p : PendingAuxWrite) (s : Session) (x : Result Outcome)
    → (reconcile_one g false p s).0 ≡ x
    → (x ≡ err integrity) ⊎ (classify g p s.db ≡ x)
going_on g p s x h = elim (Result-cases (apply p s).0) [
  | inl (u, e) ↦ inr (ground (arith, real_one g p s))
  | inr (c, e) ↦
      let i = apply-fails p s c e in
      go (classify g p s.db) refl (
        sym (
          real_one g p s
          ∙ ap (λ a. with_apply a (classify g p s.db)) (e ∙ ap (λ (d : Error). err d) i))
        ∙ h)
]
  where
    go :
        (c : Result Outcome)
        → classify g p s.db ≡ c
        → with_apply (err integrity) c ≡ x
        → (x ≡ err integrity) ⊎ (classify g p s.db ≡ x)
    go (ok Outcome.materialized) k h = inl (sym h)
    go (ok Outcome.stale) k h = inr (k ∙ h)
    go (ok Outcome.unknown) k h = inr (k ∙ h)
    go (err d) k h = inr (k ∙ h)

length-append : {A : Type 0} (xs : List A) (x : A) → length (xs ++ x ∷ []) ≡ suc (length xs)
length-append [] x = refl
length-append (y ∷ ys) x = ap (λ n. suc n) (length-append ys x)

-- The counters of a report add up to the rows that it has scanned.
err≢ok : {A : Type 0} {e : Error} {a : A} → err e ≢ ok a
err≢ok h = ground arith

record IsBalanced (rows : ℕ) (r : Report) : Type 0 where
  scanned : r.scanned ≡ rows
  sum : r.materialized + r.skipped_stale + r.skipped_unknown + length r.errors ≡ rows

module _ (g : ℕ → Option (Option String)) (dry_run : Bool) where
  counted-IsBalanced :
      (rows : ℕ) (o : Outcome) (r : Report)
      → IsBalanced rows r
      → IsBalanced (suc rows) (counted o (scanned_one r))
  counted-IsBalanced rows Outcome.materialized r b = record {
    scanned = ground (arith, b.scanned);
    sum = ground (arith, b.sum);
  }
  counted-IsBalanced rows Outcome.stale r b = record {
    scanned = ground (arith, b.scanned);
    sum = ground (arith, b.sum);
  }
  counted-IsBalanced rows Outcome.unknown r b = record {
    scanned = ground (arith, b.scanned);
    sum = ground (arith, b.sum);
  }

  failed-IsBalanced :
      (rows : ℕ) (p : PendingAuxWrite) (e : Error) (r : Report)
      → IsBalanced rows r
      → IsBalanced (suc rows) (failed p e (scanned_one r))
  failed-IsBalanced rows p e r b = record {
    scanned = ground (arith, b.scanned);
    sum = ground (arith, b.sum, length-append r.errors (p.correlation_id, e));
  }

  -- One iteration, whatever its row is answered.
  concluded :
      (p : PendingAuxWrite) (rows : ℕ) (r r' : Report) (ps : List PendingAuxWrite)
      → IsBalanced rows r
      → ((q : Report) (s : Session)
          → IsBalanced (suc rows) q
          → (drain g dry_run ps q s).0 ≡ ok r'
          → IsBalanced (suc rows + length ps) r')
      → (a : Result Outcome) (s : Session)
      → (conclude p (λ q. drain g dry_run ps q) r a s).0 ≡ ok r'
      → IsBalanced (rows + suc (length ps)) r'
  concluded p rows r r' ps b ih (ok o) s h =
      let c = ih (counted o (scanned_one r)) s (counted-IsBalanced rows o r b) h in
      record { scanned = ground (arith, c.scanned); sum = ground (arith, c.sum) }
  concluded p rows r r' ps b ih (err e) s h = go (ends_run e) h
    where
      go :
          (ends : Bool)
          → (if ends
              then (err integrity, record s { db = s.committed })
              else drain g dry_run ps (failed p e (scanned_one r)) s).0
            ≡ ok r'
          → IsBalanced (rows + suc (length ps)) r'
      go true h = absurd (err≢ok h)
      go false h =
          let c = ih (failed p e (scanned_one r)) s (failed-IsBalanced rows p e r b) h in
          record { scanned = ground (arith, c.scanned); sum = ground (arith, c.sum) }

  drain-IsBalanced :
      (ps : List PendingAuxWrite) (rows : ℕ) (r r' : Report) (s : Session)
      → IsBalanced rows r
      → (drain g dry_run ps r s).0 ≡ ok r'
      → IsBalanced (rows + length ps) r'
  unfolding drain
  drain-IsBalanced [] rows r r' s b h = record {
    scanned = ground (arith, b.scanned);
    sum = ground (arith, b.sum);
  }
  drain-IsBalanced (p ∷ ps) rows r r' s b h =
      concluded p rows r r' ps b (λ q s' c h'. drain-IsBalanced ps (suc rows) q r' s' c h')
        (reconcile_one g dry_run p s).0 (reconcile_one g dry_run p s).1 h

length-by_age : (ps : List PendingAuxWrite) → length (by_age ps) ≡ length ps
unfolding by_age
length-by_age [] = refl
length-by_age (p ∷ ps) = length-append (by_age ps) p ∙ ap (λ n. suc n) (length-by_age ps)

reconcile-drain :
    (g : ℕ → Option (Option String)) (dry_run : Bool) (s : Session) (r : Report)
    → (reconcile g dry_run s).0 ≡ ok r
    → (drain g dry_run (by_age s.db.aux_writes) empty_report s).0 ≡ ok r
unfolding reconcile
reconcile-drain g dry_run s r h = ground arith

-- Every row is counted once: the report of a run has scanned as many rows as the outbox had, and its
-- materialised, stale and unknown rows and its errors add up to them.
pub reconcile-counts :
    (g : ℕ → Option (Option String)) (dry_run : Bool) (s : Session) (r : Report)
    → (reconcile g dry_run s).0 ≡ ok r
    → (r.scanned ≡ length s.db.aux_writes)
      × (r.materialized + r.skipped_stale + r.skipped_unknown + length r.errors
          ≡ length s.db.aux_writes)
unfolding reconcile
reconcile-counts g dry_run s r h =
    let e = reconcile-drain g dry_run s r h in
    let b =
      drain-IsBalanced g dry_run (by_age s.db.aux_writes) 0 empty_report r s
        (record { scanned = refl; sum = refl }) e in
    (
      ground (arith, b.scanned, length-by_age s.db.aux_writes),
      ground (arith, b.sum, length-by_age s.db.aux_writes),
    )

-- One iteration of the real run and of the dry run.
agree_one :
    (g : ℕ → Option (Option String)) (p : PendingAuxWrite) (ps : List PendingAuxWrite)
    (r r' : Report) (s t : Session) (c a : Result Outcome)
    → (a ≡ err integrity) ⊎ (c ≡ a)
    → ((q : Report) → (drain g false ps q s).0 ≡ ok r' → drain g true ps q t ≡ (ok r', t))
    → (conclude p (λ q. drain g false ps q) r a s).0 ≡ ok r'
    → conclude p (λ q. drain g true ps q) r c t ≡ (ok r', t)
agree_one g p ps r r' s t c a (inl i) ih h =
    absurd (err≢ok (ap (λ x. (conclude p (λ q. drain g false ps q) r x s).0) (sym i) ∙ h))
agree_one g p ps r r' s t c a (inr k) ih h =
    ap (λ x. conclude p (λ q. drain g true ps q) r x t) k ∙ go a h
  where
    go :
        (x : Result Outcome)
        → (conclude p (λ q. drain g false ps q) r x s).0 ≡ ok r'
        → conclude p (λ q. drain g true ps q) r x t ≡ (ok r', t)
    go (ok o) h = ih (counted o (scanned_one r)) h
    go (err Error.integrity) h = absurd (err≢ok h)
    go (err Error.not_found) h = ih (failed p Error.not_found (scanned_one r)) h
    go (err Error.conflict) h = ih (failed p Error.conflict (scanned_one r)) h
    go (err Error.validation) h = ih (failed p Error.validation (scanned_one r)) h
    go (err Error.illegal_transition) h = ih (failed p Error.illegal_transition (scanned_one r)) h
    go (err Error.engine_failure) h = ih (failed p Error.engine_failure (scanned_one r)) h

-- The real run, where it answers, and the dry run on the same tables.
drain-agrees :
    (g : ℕ → Option (Option String)) (ps : List PendingAuxWrite) (r r' : Report) (s t : Session)
    → s.db.tasks ≡ t.db.tasks
    → s.db.work_items ≡ t.db.work_items
    → (drain g false ps r s).0 ≡ ok r'
    → drain g true ps r t ≡ (ok r', t)
unfolding drain
drain-agrees g [] r r' s t e f h = ap (λ a. (a, t)) h
drain-agrees g (p ∷ ps) r r' s t e f h =
    ap (λ (a : Result Outcome × Session). conclude p (λ q. drain g true ps q) r a.0 a.1)
      (dry_one g p t)
    ∙ agree_one g p ps r r' (reconcile_one g false p s).1 t (classify g p t.db)
        (reconcile_one g false p s).0
        (elim (going_on g p s (reconcile_one g false p s).0 refl) [
          | inl i ↦ inl i
          | inr k ↦ inr (sym (classify-same g p s.db t.db e f) ∙ k)
        ])
        (λ q h'.
          drain-agrees g ps q r' (reconcile_one g false p s).1 t (real_one-tasks g p s ∙ e)
            (real_one-work_items g p s ∙ f) h')
        h

-- Where a real run would not raise, the report of a dry run is the real run's, and the dry run
-- changes nothing in the session.
pub reconcile-dry_run :
    (g : ℕ → Option (Option String)) (s : Session) (r : Report)
    → (reconcile g false s).0 ≡ ok r
    → reconcile g true s ≡ (ok r, s)
unfolding reconcile
reconcile-dry_run g s r h =
    ap
      (λ (a : Result Report × Session). elim a.0 as (λ _. Result Report × Session) [
        | err e ↦ (err e, a.1)
        | ok q ↦ (ok q, a.1)
      ])
      (drain-agrees g (by_age s.db.aux_writes) empty_report r s s refl refl
        (reconcile-drain g false s r h))
