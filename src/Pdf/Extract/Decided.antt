-- ===== src/Pdf/Extract/Decided.antt =====
-- While a manual is walked over, each table that was read has a decision that keeps it.
use libhw.Base.{
  All, All-mono, Bool, Bool-cases, Dict, List, Option-cases, Text, [], ap, false, has_key,
  has_key-insert, inl, inr, insert, lookup, lookup-has_key, lookup-insert, member, refl,
  set_default, some, some-injective, subst, suc, sym, text_eq, text_eq_iff, text_eq_refl, true,
  zero, ℕ, ◌+◌, ◌∙◌, ◌∷◌, ◌≡◌,
}
use libhw.Pdf.Caption.{caption_of, section_at}
use libhw.Pdf.Extract.{
  TableDecision, Walk, decide, decision_of, is_kept, new_table, parse_table_body, read_table,
  splitlines, table_at, visit_caption, walk_page, walk_pages,
}
use libhw.Pdf.Extract.Body.{parse_table_body-id}
use libhw.Pdf.Table.{Table}

module _ (ids : List Text) where
  -- The decision keeps the table, as the ids do.
  abbrev pub Keeps : Text → TableDecision → Type 0
  Keeps tid d = (d.table_id ≡ tid) × (d.kept ≡ true)

  abbrev pub HasDecision : Dict TableDecision → Text → Type 0
  HasDecision ds tid = (d : TableDecision) × (lookup tid ds ≡ some d) × Keeps tid d

  -- A decision on a table keeps it exactly if it is among the ids.
  abbrev pub Sound : Text × TableDecision → Type 0
  Sound (tid, d) = (d.table_id ≡ tid) × (d.kept ≡ member tid ids)

  abbrev pub Good : Walk → Type 0
  Good w =
      All Sound w.decisions
      × All (λ (tid, t). (t.table_id ≡ tid) × HasDecision w.decisions tid) w.tables

  lookup-Sound :
      (tid : Text) (ds : Dict TableDecision)
      → member tid ids ≡ true
      → has_key tid ds ≡ true
      → All Sound ds
      → HasDecision ds tid
  unfolding has_key lookup
  lookup-Sound tid [] kept there h = cc
  lookup-Sound tid ((j, d) ∷ ds) kept there h = elim (Bool-cases (text_eq j tid)) [
    | inl same ↦
        let eq = (text_eq_iff j tid).0 same in
        rw same (d, refl, (h.0.0 ∙ eq, h.0.1 ∙ ap (λ x. member x ids) eq ∙ kept))
    | inr other ↦ rw other (lookup-Sound tid ds kept (rw other at there) h.1)
  ]

  insert-Sound :
      (tid : Text) (d : TableDecision) (ds : Dict TableDecision)
      → Sound (tid, d)
      → All Sound ds
      → All Sound (insert tid d ds)
  unfolding insert
  insert-Sound tid d [] q h = (q, tt)
  insert-Sound tid d ((j, e) ∷ ds) q h = elim (Bool-cases (text_eq j tid)) [
    | inl same ↦ rw same (subst (λ k. Sound (k, d)) (sym ((text_eq_iff j tid).0 same)) q, h.1)
    | inr other ↦ rw other (h.0, insert-Sound tid d ds q h.1)
  ]

  set_default-Sound :
      (tid : Text) (d : TableDecision) (ds : Dict TableDecision)
      → Sound (tid, d)
      → All Sound ds
      → All Sound (set_default tid d ds)
  unfolding set_default
  set_default-Sound tid d ds q h = elim (Bool-cases (has_key tid ds)) [
    | inl there ↦ rw there h
    | inr new ↦ rw new (insert-Sound tid d ds q h)
  ]

  set_default-HasDecision :
      (tid k : Text) (d : TableDecision) (ds : Dict TableDecision)
      → HasDecision ds k
      → HasDecision (set_default tid d ds) k
  unfolding set_default
  set_default-HasDecision tid k d ds (e, found, keeps) = elim (Bool-cases (has_key tid ds)) [
    | inl there ↦ rw there (e, found, keeps)
    | inr new ↦ elim (Bool-cases (text_eq tid k)) [
      | inl same ↦
          let missing = lookup-has_key tid ds new in
          absurd (cc (found, missing, (text_eq_iff tid k).0 same))
      | inr other ↦ rw new (e, lookup-insert tid k d ds ∙ (rw other found), keeps)
    ]
  ]

  decide-Good :
      (page : ℕ) (tid caption : Text) (w : Walk)
      → Good w
      → Good (decide (some ids) page tid caption w)
  unfolding decide decision_of is_kept
  decide-Good page tid caption w (sound, tables) =
      let d = decision_of tid caption w.section page (member tid ids) in
      (
        set_default-Sound tid d w.decisions (refl, refl) sound,
        All-mono (λ (k, t) h. (h.0, set_default-HasDecision tid k d w.decisions h.1)) w.tables
            tables,
      )

  has_key-decide :
      (page : ℕ) (tid caption : Text) (w : Walk)
      → has_key tid (decide (some ids) page tid caption w).decisions ≡ true
  unfolding decide set_default
  has_key-decide page tid caption w =
      let d = decision_of tid caption w.section page (is_kept (some ids) tid caption) in
      elim (Bool-cases (has_key tid w.decisions)) [
        | inl e ↦ rw e e
        | inr e ↦ rw e (has_key-insert tid tid d w.decisions ∙ (rw (text_eq_refl tid) refl))
      ]

  abbrev pub Tables : Dict TableDecision → Dict Table → Type 0
  Tables ds ts = All (λ (k, t). (t.table_id ≡ k) × HasDecision ds k) ts

  lookup-id :
      (ds : Dict TableDecision) (tid : Text) (t : Table) (ts : Dict Table)
      → Tables ds ts
      → lookup tid ts ≡ some t
      → t.table_id ≡ tid
  unfolding lookup
  lookup-id ds tid t [] h e = cc
  lookup-id ds tid t ((j, u) ∷ ts) h e = elim (Bool-cases (text_eq j tid)) [
    | inl same ↦
        let eq = some-injective u t (rw same at e) in
        ap (λ (x : Table). x.table_id) (sym eq) ∙ h.0.0 ∙ (text_eq_iff j tid).0 same
    | inr other ↦ lookup-id ds tid t ts h.1 (rw other at e)
  ]

  table_at-id :
      (w : Walk) (tid caption : Text) (page : ℕ)
      → Good w
      → (table_at w tid caption page).table_id ≡ tid
  unfolding table_at new_table
  table_at-id w tid caption page good = elim (Option-cases (lookup tid w.tables)) [
    | inl e ↦ rw (e, table_at) refl
    | inr (t, e) ↦ rw (e, table_at) (lookup-id w.decisions tid t w.tables good.1 e)
  ]

  insert-table :
      (ds : Dict TableDecision) (tid : Text) (t : Table) (ts : Dict Table)
      → (t.table_id ≡ tid) × HasDecision ds tid
      → Tables ds ts
      → Tables ds (insert tid t ts)
  unfolding insert
  insert-table ds tid t [] q h = (q, tt)
  insert-table ds tid t ((j, u) ∷ ts) q h = elim (Bool-cases (text_eq j tid)) [
    | inl same ↦
        let eq = sym ((text_eq_iff j tid).0 same) in
        rw same ((q.0 ∙ eq, subst (HasDecision ds) eq q.1), h.1)
    | inr other ↦ rw other (h.0, insert-table ds tid t ts q h.1)
  ]

  read_table-Good :
      (kept : Bool) (page : ℕ) (tid caption : Text) (lines : List Text) (w : Walk)
      → member tid ids ≡ kept
      → has_key tid w.decisions ≡ true
      → Good w
      → Good (read_table kept page tid caption lines w).1
  unfolding read_table
  read_table-Good false page tid caption lines w e there good = good
  read_table-Good true page tid caption lines w e there good =
      let fresh = table_at w tid caption page in
      let has = lookup-Sound tid w.decisions e there good.0 in
      let id = parse_table_body-id page lines fresh ∙ table_at-id w tid caption page good in
      (
        good.0,
        insert-table w.decisions tid (parse_table_body page lines fresh).1 w.tables (id, has)
            good.1,
      )

  visit_caption-Good :
      (page : ℕ) (c : Text × Text) (lines : List Text) (w : Walk)
      → Good w
      → Good (visit_caption (some ids) page c lines w).1
  unfolding visit_caption is_kept
  visit_caption-Good page (tid, caption) lines w good =
      read_table-Good (member tid ids) page tid caption lines (decide (some ids) page tid caption w)
        refl (has_key-decide page tid caption w) (decide-Good page tid caption w good)

  walk_page-Good :
      (page fuel : ℕ) (lines : List Text) (w : Walk)
      → Good w
      → Good (walk_page (some ids) page fuel lines w)
  unfolding walk_page
  walk_page-Good page zero lines w good = good
  walk_page-Good page (suc fuel) [] w good = good
  walk_page-Good page (suc fuel) (line ∷ lines) w good =
      let here : Walk = record w { section = section_at w.section line } in
      elim (Option-cases (caption_of line)) [
        | inl e ↦ rw (e, walk_page) (walk_page-Good page fuel lines here good)
        | inr (c, e) ↦
            let (rest, next) = visit_caption (some ids) page c lines here in
            rw (e, walk_page)
              (walk_page-Good page fuel rest next (visit_caption-Good page c lines here good))
      ]

  pub walk_pages-Good :
      (page : ℕ) (pages : List Text) (w : Walk) → Good w → Good (walk_pages (some ids) page pages w)
  unfolding walk_pages
  walk_pages-Good page [] w good = good
  walk_pages-Good page (text ∷ pages) w good =
      walk_pages-Good (page + 1) pages _ (walk_page-Good page _ (splitlines text) w good)
