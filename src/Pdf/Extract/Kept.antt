-- ===== src/Pdf/Extract/Kept.antt =====
-- The tables that an extraction returns, against its decisions.
use libhw.Base.{
  All, All-mono, Bool, Bool-cases, Dict, List, Text, [], any, ap, arith, inl, inr, insert, length,
  lookup, lookup-insert, ok, refl, some, some-injective, subst, sym, text_eq, text_eq_iff, true,
  ◌&&◌, ◌∙◌, ◌∷◌, ◌≡◌,
}
use libhw.Pdf.Extract.{TableDecision, count_rows, extract_tables, set_row_count, values, walk_pages}
use libhw.Pdf.Extract.Decided.{HasDecision, Keeps, Tables, walk_pages-Good}
use libhw.Pdf.Table.{Table}

module _ (ids : List Text) where
  insert-HasDecision :
      (tid k : Text) (d : TableDecision) (ds : Dict TableDecision)
      → Keeps ids tid d
      → HasDecision ids ds k
      → HasDecision ids (insert tid d ds) k
  insert-HasDecision tid k d ds keeps (e, found, old) = elim (Bool-cases (text_eq tid k)) [
    | inl same ↦ (
      d,
      lookup-insert tid k d ds ∙ (rw same refl),
      subst (λ x. Keeps ids x d) ((text_eq_iff tid k).0 same) keeps,
    )
    | inr other ↦ (e, lookup-insert tid k d ds ∙ (rw other found), old)
  ]

  count_rows-ok :
      (ts : Dict Table) (ds : Dict TableDecision)
      → Tables ids ds ts
      → (out : Dict TableDecision) × (count_rows ts ds ≡ ok out)
        × ((k : Text) → HasDecision ids ds k → HasDecision ids out k)
  unfolding count_rows set_row_count
  count_rows-ok [] ds h = (ds, refl, λ k has. has)
  count_rows-ok ((tid, t) ∷ ts) ds ((id, has), h) =
      let (d, found, keeps) = has in
      let counted = set_row_count (length t.rows) d in
      let kept : (k : Text) → HasDecision ids ds k → HasDecision ids (insert tid counted ds) k =
        λ k. insert-HasDecision tid k counted ds keeps in
      let (out, eq, keep_all) =
        count_rows-ok ts (insert tid counted ds) (All-mono (λ (k, u) q. (q.0, kept k q.1)) ts h) in
      (out, rw found eq, λ k old. keep_all k (kept k old))

-- The decision is on the table, and keeps it.
unfoldable pub keeps_table : Table → TableDecision → Bool
unfolding text_eq
keeps_table t d = text_eq d.table_id t.table_id && d.kept

any-lookup :
    (t : Table) (tid : Text) (d : TableDecision) (ds : Dict TableDecision)
    → lookup tid ds ≡ some d
    → keeps_table t d ≡ true
    → any (keeps_table t) (values ds) ≡ true
unfolding lookup
any-lookup t tid d [] h k = cc
any-lookup t tid d ((j, e) ∷ ds) h k = elim (Bool-cases (text_eq j tid)) [
  | inl same ↦ let eq = some-injective e d (rw same at h) in rw (ap (keeps_table t) eq ∙ k) refl
  | inr other ↦ rw (any-lookup t tid d ds (rw other at h) k) (unfold keeps_table in ground arith)
]

Tables-kept :
    (ids : List Text) (ds : Dict TableDecision) (ts : Dict Table)
    → Tables ids ds ts
    → All (λ t. any (keeps_table t) (values ds) ≡ true) (values ts)
Tables-kept ids ds [] h = tt
Tables-kept ids ds ((tid, t) ∷ ts) ((id, has), h) =
    let (d, found, keeps) = has in
    let same = (text_eq_iff d.table_id t.table_id).1 (keeps.0 ∙ sym id) in
    (
      any-lookup t tid d ds found (unfold keeps_table in (rw (same, keeps.1) refl)),
      Tables-kept ids ds ts h,
    )

-- An extraction for given ids returns, and each table that it returns has a decision that keeps it.
pub extract_tables_kept :
    (pages ids : List Text)
    → (ts : List Table) × (ds : List TableDecision) × (extract_tables pages (some ids)
        ≡ ok (ts, ds))
      × All (λ t. any (keeps_table t) ds ≡ true) ts
unfolding extract_tables
extract_tables_kept pages ids =
    let w = walk_pages (some ids) 1 pages (record { tables = []; decisions = []; section = [] }) in
    let (sound, tables) = walk_pages-Good ids 1 pages _ (tt, tt) in
    let (out, eq, keep_all) = count_rows-ok ids w.tables w.decisions tables in
    (
      values w.tables,
      values out,
      rw eq refl,
      Tables-kept ids out w.tables (All-mono (λ (k, t) h. (h.0, keep_all k h.1)) w.tables tables),
    )
