-- ===== src/Etl/Insert/Quoted.antt =====
-- internal/etl/executor.go: the text of the statement that a pipeline becomes, with its names in
-- quotes.
use mathlib.Core.List.{Memᴰ, append-nil}
use mathlib.Core.Bool.{false≢true}
use go_task_q.Etl.{Text, IsText, valid}
use go_task_q.Etl.Insert.Names.{in_quotes, IsPlain, IsSanitizer}
use go_task_q.Etl.Insert.{
  upsert_text, insert_text, statement_of, PipelineSpec, build_insert_sql, mode_of,
  update_columns_of, is_upsert, is_empty, non_conflict_columns,
}
use go_task_q.Etl.Insert.Built.{IsBuilt, build-IsBuilt}
use go_task_q.Etl.Extract.{normalize_extract_sql}
use go_task_q.Base.{
  if◌then◌else◌, map, [], ap, ◌∷◌, inl, inr, codes, ◌∙◌, bytes_eq, bytes_eq_iff, join, sym, split,
  subst, All, any, ◌++◌, ◌≢◌, ◌⊎◌, Bool-cases, ◌≡◌, ◌↔◌, Bytes, List, true, false, refl, arith,
}

any-mem : (c : Bytes) (ks : List Bytes) → any (bytes_eq c) ks ≡ true → Memᴰ c ks
any-mem c [] h = cc
any-mem c (k ∷ ks) h = elim (Bool-cases (bytes_eq c k)) [
  | inl t ↦ Memᴰ.head ((bytes_eq_iff c k).0 t)
  | inr f ↦ Memᴰ.tail (any-mem c ks (rw f at h))
]

mem-any : (c : Bytes) (ks : List Bytes) → Memᴰ c ks → any (bytes_eq c) ks ≡ true
mem-any c [] m = elim m [ ]
mem-any c (k ∷ ks) (Memᴰ.head e) = rw ((bytes_eq_iff c k).1 e)
mem-any c (k ∷ ks) (Memᴰ.tail m) = ground (arith, mem-any c ks m)

mem-kept :
    (d : Bytes) (rest cs ks : List Bytes) (c : Bytes)
    → any (bytes_eq d) ks ≡ false
    → (Memᴰ c rest → Memᴰ c cs × ¬ Memᴰ c ks)
    → Memᴰ c (d ∷ rest)
    → Memᴰ c (d ∷ cs) × ¬ Memᴰ c ks
mem-kept d rest cs ks c f h (Memᴰ.head e) =
    (Memᴰ.head e, λ k. false≢true (sym f ∙ ap (λ x. any (bytes_eq x) ks) (sym e) ∙ mem-any c ks k))
mem-kept d rest cs ks c f h (Memᴰ.tail i) = let (j, n) = h i in (Memᴰ.tail j, n)

mem-non_conflict :
    (cs ks : List Bytes) (c : Bytes) → Memᴰ c (non_conflict_columns cs ks) → Memᴰ c cs × ¬ Memᴰ c ks
mem-non_conflict [] ks c m = elim m [ ]
mem-non_conflict (d ∷ cs) ks c m =
    let ih = mem-non_conflict cs ks c in
    elim (Bool-cases (any (bytes_eq d) ks)) [
      | inl t ↦ let (i, n) = ih (rw t at m) in (Memᴰ.tail i, n)
      | inr f ↦ mem-kept d (non_conflict_columns cs ks) cs ks c f ih (rw f at m)
    ]

non_conflict-mem :
    (cs ks : List Bytes) (c : Bytes) → Memᴰ c cs → ¬ Memᴰ c ks → Memᴰ c (non_conflict_columns cs ks)
non_conflict-mem [] ks c m n = elim m [ ]
non_conflict-mem (d ∷ cs) ks c (Memᴰ.head e) n = elim (Bool-cases (any (bytes_eq d) ks)) [
  | inl t ↦ absurd (n (any-mem c ks (ap (λ x. any (bytes_eq x) ks) e ∙ t)))
  | inr f ↦ rw f (Memᴰ.head e)
]
non_conflict-mem (d ∷ cs) ks c (Memᴰ.tail m) n =
    let rest = non_conflict-mem cs ks c m n in
    elim (Bool-cases (any (bytes_eq d) ks)) [ inl t ↦ rw t rest | inr f ↦ rw f (Memᴰ.tail rest) ]

-- The columns that a conflict updates: those that the pipeline names, or if it names none, the
-- columns that are no conflict columns.
abbrev pub IsUpdated : PipelineSpec → List Bytes → Type 0
IsUpdated spec updates =
    ((spec.update_columns ≢ []) × (updates ≡ spec.update_columns))
    ⊎ ((spec.update_columns ≡ [])
        × ((c : Bytes)
            → Memᴰ c updates ↔ (Memᴰ c spec.target_columns × ¬ Memᴰ c spec.conflict_columns)))

-- INSERT INTO "table" ("column", …) and the query.
abbrev pub inserted : PipelineSpec → Bytes → Bytes
inserted spec sql =
    codes "INSERT INTO "
    ++ join ((b'.' ∷ [])) (map in_quotes (split b'.' spec.target_table))
    ++ codes " ("
    ++ join (codes ", ") (map in_quotes spec.target_columns)
    ++ codes ")\n"
    ++ sql

-- ON CONFLICT ("column", …) DO UPDATE SET "column" = EXCLUDED."column", …
abbrev pub on_conflict : List Bytes → List Bytes → Bytes
on_conflict conflicts updates =
    codes "\nON CONFLICT ("
    ++ join (codes ", ") (map in_quotes conflicts)
    ++ codes ") DO UPDATE SET "
    ++ join (codes ", ") (map (λ c. in_quotes c ++ codes " = EXCLUDED." ++ in_quotes c) updates)

map-assignment :
    (cs : List Bytes)
    → map (λ c. c ++ codes " = EXCLUDED." ++ c) (map in_quotes cs)
      ≡ map (λ c. in_quotes c ++ codes " = EXCLUDED." ++ in_quotes c) cs
map-assignment [] = refl
map-assignment (c ∷ cs) =
    ap (◌∷◌ (in_quotes c ++ codes " = EXCLUDED." ++ in_quotes c)) (map-assignment cs)

module _ (t : Text) where
  -- The write mode as it is read.
  abbrev pub mode_read : PipelineSpec → Bytes
  mode_read spec = t.trim_space (t.to_lower spec.write_mode)

  -- The text of the statement, by the write mode.
  pub data IsRendered (spec : PipelineSpec) (sql out : Bytes) : Type 0 where
    appends :
        (mode_read spec ≡ []) ⊎ (mode_read spec ≡ codes "append")
        → out ≡ inserted spec sql
        → IsRendered spec sql out
    upserts :
        (updates : List Bytes)
        → mode_read spec ≡ codes "upsert"
        → spec.conflict_columns ≢ []
        → updates ≢ []
        → IsUpdated spec updates
        → All IsPlain updates
        → out ≡ inserted spec sql ++ on_conflict spec.conflict_columns updates
        → IsRendered spec sql out

  -- The statement, made of the names of the pipeline.
  pub record IsQuoted (spec : PipelineSpec) (out : Bytes) : Type 0 where
    pub sql : Bytes
    pub extracted : normalize_extract_sql t spec.extract_sql ≡ valid sql
    pub table : All IsPlain (split b'.' spec.target_table)
    pub columns : All IsPlain spec.target_columns
    pub conflicts : All IsPlain spec.conflict_columns
    pub text : IsRendered spec sql out

mode-append :
    (m : Bytes)
    → (if is_empty m then codes "append" else m) ≡ codes "append"
    → (m ≡ []) ⊎ (m ≡ codes "append")
mode-append [] h = inl refl
mode-append (c ∷ m) h = inr h

mode-upsert :
    (m : Bytes) → is_upsert (if is_empty m then codes "append" else m) ≡ true → m ≡ codes "upsert"
unfolding bytes_eq
mode-upsert [] h = cc
mode-upsert (c ∷ m) h = (bytes_eq_iff (c ∷ m) (codes "upsert")).0 h

append-not_upsert : (mode : Bytes) → mode ≡ codes "append" → is_upsert mode ≡ false
unfolding bytes_eq
append-not_upsert mode e = ap is_upsert e

module _ (t : Text) (sanitize : List Bytes → Bytes) where
  statement_of-upsert :
      (mode table : Bytes) (columns conflicts updates : List Bytes) (sql : Bytes)
      → is_upsert mode ≡ true
      → statement_of t sanitize mode table columns conflicts updates sql
        ≡ insert_text table columns sql ++ upsert_text conflicts updates
  statement_of-upsert mode table columns conflicts updates sql u = rw u refl

  updated_lem :
      (mode : Bytes) (spec : PipelineSpec)
      → is_upsert mode ≡ true
      → IsUpdated spec (update_columns_of t sanitize mode spec)
  updated_lem mode spec u = go spec.update_columns refl
    where
      go :
          (cs : List Bytes)
          → spec.update_columns ≡ cs
          → IsUpdated spec (update_columns_of t sanitize mode spec)
      go [] e = inr (
        e,
        λ c. (
          λ m.
              mem-non_conflict spec.target_columns spec.conflict_columns c
                (subst (Memᴰ c) (rw (u, e) refl) m),
          λ (m, n).
              subst (Memᴰ c) (rw (u, e) refl)
                (non_conflict-mem spec.target_columns spec.conflict_columns c m n),
        ),
      )
      go (d ∷ cs) e = inl ((λ z. absurd (cc (e, z))), rw (u, e) refl)

module _ (t : Text) (l : IsText t) (sanitize : List Bytes → Bytes) (z : IsSanitizer sanitize) where
  IsBuilt-IsRendered :
      (spec : PipelineSpec) (out : Bytes) (b : IsBuilt t l sanitize z spec out)
      → IsRendered t spec b.sql out
  IsBuilt-IsRendered spec out b =
      let mode = mode_of t sanitize spec.write_mode in
      elim b.known [
        | inl a ↦
            appends (mode-append (mode_read t spec) a)
              (b.text ∙ rw (append-not_upsert mode a) (append-nil (inserted spec b.sql)))
        | inr u ↦
            let updates = update_columns_of t sanitize mode spec in
            upserts updates (mode-upsert (mode_read t spec) u) (b.some_conflicts u)
              (b.some_updates u) (updated_lem t sanitize mode spec u) b.updates
              (b.text
                ∙ statement_of-upsert t sanitize mode
                    (join (b'.' ∷ []) (map in_quotes (split b'.' spec.target_table)))
                    (map in_quotes spec.target_columns) (map in_quotes spec.conflict_columns)
                    (map in_quotes updates) b.sql u
                ∙ ap
                    (λ m.
                      inserted spec b.sql
                      ++ (codes "\nON CONFLICT ("
                          ++ join (codes ", ") (map in_quotes spec.conflict_columns)
                          ++ codes ") DO UPDATE SET "
                          ++ join (codes ", ") m))
                    (map-assignment updates))
      ]

  -- A statement that is built names the table, the columns, the conflict columns and the updates
  -- in the order of the pipeline, each part in quotes and free of quotes and NULs itself, around
  -- the query that `normalizeExtractSQL` let through.
  pub build-IsQuoted :
      (spec : PipelineSpec) (out : Bytes)
      → build_insert_sql t sanitize spec ≡ valid out
      → IsQuoted t spec out
  build-IsQuoted spec out h =
      let b = build-IsBuilt t l sanitize z spec out h in
      record {
        sql = b.sql;
        extracted = b.extracted;
        table = b.table;
        columns = b.columns;
        conflicts = b.conflicts;
        text = IsBuilt-IsRendered spec out b;
      }
