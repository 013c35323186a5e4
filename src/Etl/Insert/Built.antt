-- ===== src/Etl/Insert/Built.antt =====
-- internal/etl/executor.go: what `BuildInsertSQL` has checked when it builds a statement.
use go_task_q.Etl.{Text, IsText, valid, bind-valid, eq_of_valid, not_valid}
use mathlib.Core.Bool.{false≢true}
use go_task_q.Etl.Insert.Names.{
  in_quotes, IsPlain, IsSanitizer, parse_identifier-valid, sanitized-quoted,
}
use go_task_q.Etl.Insert.{
  PipelineSpec, build_insert_sql, parse_identifier, sanitize_unqualified, check_all, check_mode,
  mode_of, need_updates, update_columns_of, statement_of, is_upsert, is_empty,
}
use go_task_q.Etl.Extract.{normalize_extract_sql}
use go_task_q.Base.{
  refl, arith, bytes_eq_iff, ◌≢◌, true, false, ◌⊎◌, map, [], ap, ◌∷◌, inr, codes, ◌∙◌, bytes_eq,
  inl, join, sym, ◌&&◌, split, not, subst, All, Bool-cases, ◌≡◌, Bytes, List,
}

module _ (t : Text) (l : IsText t) (sanitize : List Bytes → Bytes) (z : IsSanitizer sanitize) where
  known_mode :
      (mode : Bytes)
      → (not (bytes_eq mode (codes "append")) && not (is_upsert mode)) ≡ false
      → (mode ≡ codes "append") ⊎ (is_upsert mode ≡ true)
  known_mode mode h = elim (Bool-cases (is_upsert mode)) [
    | inl t ↦ inr t
    | inr f ↦ inl ((bytes_eq_iff mode (codes "append")).0 (ground (arith, h, f)))
  ]

  check_mode-valid :
      (mode m : Bytes) (conflicts : List Bytes)
      → check_mode t sanitize mode conflicts ≡ valid m
      → (m ≡ mode)
        × ((mode ≡ codes "append") ⊎ (is_upsert mode ≡ true))
        × (is_upsert mode ≡ true → conflicts ≢ [])
  check_mode-valid mode m conflicts h =
      elim (Bool-cases (not (bytes_eq mode (codes "append")) && not (is_upsert mode))) [
        | inl bad ↦ absurd (not_valid (rw bad at h))
        | inr ok ↦ elim (Bool-cases (is_upsert mode && is_empty conflicts)) [
          | inl bad ↦ absurd (not_valid (rw (ok, bad) at h))
          | inr good ↦ (
            sym (eq_of_valid (rw (ok, good) at h)),
            known_mode mode ok,
            λ u e. absurd (false≢true (sym good ∙ rw (u, e) refl)),
          )
        ]
      ]

  need_updates-valid :
      (mode : Bytes) (updates us : List Bytes)
      → need_updates t sanitize mode updates ≡ valid us
      → (us ≡ updates) × (is_upsert mode ≡ true → updates ≢ [])
  need_updates-valid mode updates us h = elim (Bool-cases (is_upsert mode && is_empty updates)) [
    | inl bad ↦ absurd (not_valid (rw bad at h))
    | inr good ↦
        (sym (eq_of_valid (rw good at h)), λ u e. absurd (false≢true (sym good ∙ rw (u, e) refl)))
  ]

  -- The statement, in the words of `BuildInsertSQL`.
  pub record IsBuilt (spec : PipelineSpec) (out : Bytes) : Type 0 where
    pub sql : Bytes
    pub extracted : normalize_extract_sql t spec.extract_sql ≡ valid sql
    pub table : All IsPlain (split b'.' spec.target_table)
    pub columns : All IsPlain spec.target_columns
    pub conflicts : All IsPlain spec.conflict_columns
    pub updates :
        All IsPlain (update_columns_of t sanitize (mode_of t sanitize spec.write_mode) spec)
    pub known :
        (mode_of t sanitize spec.write_mode ≡ codes "append")
        ⊎ (is_upsert (mode_of t sanitize spec.write_mode) ≡ true)
    pub some_conflicts :
        is_upsert (mode_of t sanitize spec.write_mode) ≡ true → spec.conflict_columns ≢ []
    pub some_updates :
        is_upsert (mode_of t sanitize spec.write_mode) ≡ true
        → update_columns_of t sanitize (mode_of t sanitize spec.write_mode) spec ≢ []
    pub text :
        out
        ≡ statement_of t sanitize
            (mode_of t sanitize spec.write_mode)
            (join (b'.' ∷ []) (map in_quotes (split b'.' spec.target_table)))
            (map in_quotes spec.target_columns)
            (map in_quotes spec.conflict_columns)
            (map in_quotes (update_columns_of t sanitize (mode_of t sanitize spec.write_mode) spec))
            sql

  same_statement :
      (sql : Bytes) {m m2 tb tb2 : Bytes} {cs cs2 ks ks2 us us2 : List Bytes}
      → m ≡ m2
      → tb ≡ tb2
      → cs ≡ cs2
      → ks ≡ ks2
      → us ≡ us2
      → statement_of t sanitize m tb cs ks us sql ≡ statement_of t sanitize m2 tb2 cs2 ks2 us2 sql
  same_statement sql a b c d e = rw a (rw b (rw c (rw d (rw e))))

  -- What `BuildInsertSQL` builds is put together from the checked names and the checked query.
  pub build-IsBuilt :
      (spec : PipelineSpec) (out : Bytes)
      → build_insert_sql t sanitize spec ≡ valid out
      → IsBuilt spec out
  unfolding build_insert_sql
  build-IsBuilt spec out h =
      let mode = mode_of t sanitize spec.write_mode in
      let (m, checked, h1) = bind-valid (check_mode t sanitize mode spec.conflict_columns) _ h in
      let (parts, parsed, h2) = bind-valid (parse_identifier t sanitize spec.target_table) _ h1 in
      let (columns, cs, h3) =
        bind-valid (check_all (sanitize_unqualified t sanitize) spec.target_columns) _ h2 in
      let (conflicts, ks, h4) =
        bind-valid (check_all (sanitize_unqualified t sanitize) spec.conflict_columns) _ h3 in
      let (sanitized, us, h5) =
        bind-valid
          (check_all (sanitize_unqualified t sanitize) (update_columns_of t sanitize m spec)) _
          h4 in
      let (updates, ns, h6) = bind-valid (need_updates t sanitize m sanitized) _ h5 in
      let (sql, es, made) = bind-valid (normalize_extract_sql t spec.extract_sql) _ h6 in
      let (same_mode, known, some_ks) = check_mode-valid mode m spec.conflict_columns checked in
      let (same_parts, plain_parts) =
        parse_identifier-valid t l sanitize z spec.target_table parts parsed in
      let (same_columns, plain_columns) =
        sanitized-quoted t l sanitize z spec.target_columns columns cs in
      let (same_conflicts, plain_conflicts) =
        sanitized-quoted t l sanitize z spec.conflict_columns conflicts ks in
      let (same_updates, plain_updates) =
        sanitized-quoted t l sanitize z (update_columns_of t sanitize m spec) sanitized us in
      let (same_all, some_us) = need_updates-valid m sanitized updates ns in
      record {
        sql = sql;
        extracted = es;
        table = subst (All IsPlain) same_parts plain_parts;
        columns = plain_columns;
        conflicts = plain_conflicts;
        updates =
            subst (λ x. All IsPlain (update_columns_of t sanitize x spec)) same_mode plain_updates;
        known = known;
        some_conflicts = some_ks;
        some_updates = λ u e. some_us (ap is_upsert same_mode ∙ u) (
            same_updates
            ∙ ap (λ x. map in_quotes (update_columns_of t sanitize x spec)) same_mode
            ∙ ap (map in_quotes) e);
        text =
            sym (eq_of_valid made)
            ∙ same_statement sql same_mode
                (z.quotes parts plain_parts
                  ∙ ap (λ x. join (b'.' ∷ []) (map in_quotes x)) same_parts)
                same_columns same_conflicts
                (same_all
                  ∙ same_updates
                  ∙ ap (λ x. map in_quotes (update_columns_of t sanitize x spec)) same_mode);
      }
