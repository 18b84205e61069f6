-- ===== src/Importer/Classify.antt =====
-- How `import_target` of tools/state/importer.py classifies one row.
use libhw.Base.{
  Dict, Option, Result, Text, [], codes, if◌then◌else◌, key_error, lookup, member, none, ok,
  or_else, require, some, strip, text_eq, truthy, upper, ◌&&◌, ◌++◌, ◌>>=◌,
}
use libhw.Model.Kinds.{
  Classification, Namespace, arch, architecture_defined, classification_of, conditional_state, cpu,
  emitted_state, namespace_of, same_class,
}
use libhw.Importer.Rules.{Inputs, Override, RawRecord, Rule}

-- What a row is so far: its namespace, its class, the reason for it, and the feature that it needs.
pub record Verdict : Type 0 where
  pub namespace : Namespace
  pub classification : Classification
  pub reason : Option Text
  pub feature : Option Text

abbrev pub arch_reason : Text
arch_reason =
    codes "Defined by the ARMv7-M architecture; accounted for in the architecture manifest"

unfoldable pub spelling_reason : Text → Text → Text → Text
spelling_reason arch_alias addr name =
    codes "Architectural register "
    ++ (arch_alias
        ++ (codes " at " ++ (addr ++ (codes ", named " ++ (name ++ codes " by this TRM")))))

-- `(rec.get("address") or "").strip().upper()`
unfoldable pub address_key : RawRecord → Text
unfolding or_else strip upper
address_key rec = upper (strip (or_else rec.address []))

-- `if ns_raw == "auto": … else: …`
unfoldable pub resolve_namespace : Inputs → Rule → Text → RawRecord → Result Verdict
unfolding text_eq member address_key lookup truthy or_else spelling_reason namespace_of
resolve_namespace inp rule name rec =
    let addr = address_key rec in
    let arch_alias = lookup addr inp.arch_addrs in
    if text_eq rule.namespace (codes "auto")
    then (if member name inp.arch_names
        then ok (record {
          namespace = arch;
          classification = architecture_defined;
          reason = some arch_reason;
          feature = rule.feature_requirement;
        })
        else if truthy arch_alias
        then ok (record {
          namespace = arch;
          classification = architecture_defined;
          reason = some (spelling_reason (or_else arch_alias []) addr name);
          feature = rule.feature_requirement;
        })
        else ok (record {
          namespace = cpu;
          classification = emitted_state;
          reason = none;
          feature = rule.feature_requirement;
        }))
    else do
      ns ← namespace_of rule.namespace
      ok (record {
        namespace = ns;
        classification = emitted_state;
        reason = none;
        feature = rule.feature_requirement;
      })

-- `if rule.get("classification"): …`
unfoldable pub apply_rule : Rule → Verdict → Result Verdict
unfolding truthy or_else classification_of
apply_rule rule v =
    if truthy rule.classification
    then (do
      c ← classification_of (or_else rule.classification [])
      ok (record v { classification = c; reason = rule.classification_reason }))
    else ok v

unfoldable pub get_requires : Option (Option Text) → Option Text → Option Text
get_requires none feature = feature
get_requires (some r) feature = r

-- `if ov: …`
unfoldable pub apply_override : Option Override → Verdict → Result Verdict
unfolding classification_of get_requires
apply_override none v = ok v
apply_override (some ov) v = do
  raw ← require ov.class key_error
  c ← classification_of raw
  ok (record v {
    classification = c;
    reason = ov.reason;
    feature = get_requires ov.requires v.feature;
  })

-- `if classification is EMITTED_STATE and feature: classification = CONDITIONAL_STATE`
unfoldable pub condition : Verdict → Verdict
unfolding same_class truthy
condition v =
    if same_class v.classification emitted_state && truthy v.feature
    then record v { classification = conditional_state }
    else v

-- `overrides.get(name)`, where an absent key and an empty mapping both count as none.
unfoldable pub override_of : Text → Dict (Option Override) → Option Override
unfolding lookup
override_of name d = elim (lookup name d) [ none ↦ none | some ov ↦ ov ]

unfoldable pub classify : Inputs → Rule → Text → RawRecord → Result Verdict
unfolding resolve_namespace apply_rule apply_override condition override_of
classify inp rule name rec = do
  v ← resolve_namespace inp rule name rec
  w ← apply_rule rule v
  u ← apply_override (override_of name inp.overrides) w
  ok (condition u)
