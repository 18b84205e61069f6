-- ===== src/Sources/Lock.antt =====
-- `load_sources` and `get_source` of tools/state/sources.py: the lock file as the YAML loader
-- returns it. `names` are the keys that the mapping has; each known key has its value beside it.
pub mod Pinned
use libhw.Base.{
  Bool, Dict, List, Option, Result, Text, [], codes, err, false, fold_result, insert, keep, lookup,
  member, none, not, ok, raise_if, require, some, source_error, text_eq, true, type_error, ℕ, ◌==◌,
  ◌>>=◌, ◌>>◌, ◌||◌, ◌∷◌,
}
use libhw.Sources.{Source}

pub record RawSource : Type 0 where
  pub names : List Text
  pub kind : Option Text
  pub document : Option Text
  pub revision : Option Text
  pub title : Option Text
  pub architecture : Option Text
  pub sha256 : Option Text
  pub path : Option Text
  pub bytes : Option ℕ
  pub pages : Option ℕ
  pub product_revision : Option Text
  pub acquired : Option Text
  pub redistributable : Bool
  pub url : Option Text
  pub notes : Option Text

-- An empty file is a lock with no version and no sources.
pub record Lock : Type 0 where
  pub schema_version : Option ℕ
  pub sources : Dict RawSource

-- `SUPPORTED_LOCK_SCHEMA_VERSIONS`
unfoldable pub is_supported : Option ℕ → Bool
is_supported none = false
is_supported (some v) = v == 1

-- `{f.name for f in dataclasses.fields(Source)}`
abbrev pub known_names : List Text
known_names =
    codes "key"
    ∷ codes "kind"
    ∷ codes "document"
    ∷ codes "revision"
    ∷ codes "title"
    ∷ codes "architecture"
    ∷ codes "sha256"
    ∷ codes "path"
    ∷ codes "bytes"
    ∷ codes "pages"
    ∷ codes "product_revision"
    ∷ codes "acquired"
    ∷ codes "redistributable"
    ∷ codes "url"
    ∷ codes "notes"
    ∷ []

-- `set(raw) - known - {"key"}`
unfoldable pub unknown_names : List Text → List Text
unfolding member text_eq
unknown_names names = keep (λ n. not (member n known_names || text_eq n (codes "key"))) names

unfoldable pub is_empty {ℓ} : {A : Type ℓ} → List A → Bool
is_empty [] = true
is_empty (x ∷ xs) = false

-- `Source(key=key, **raw)`: a key given twice, or a field with no value, is a `TypeError`.
unfoldable pub build_source : Text → RawSource → Result Source
unfolding unknown_names is_empty member
build_source key raw = do
  raise_if (not (is_empty (unknown_names raw.names))) source_error
  raise_if (member (codes "key") raw.names) type_error
  kind ← require raw.kind type_error
  document ← require raw.document type_error
  revision ← require raw.revision type_error
  title ← require raw.title type_error
  architecture ← require raw.architecture type_error
  sha256 ← require raw.sha256 type_error
  path ← require raw.path type_error
  ok (record {
    key = key;
    kind = kind;
    document = document;
    revision = revision;
    title = title;
    architecture = architecture;
    sha256 = sha256;
    path = path;
    bytes = raw.bytes;
    pages = raw.pages;
    product_revision = raw.product_revision;
    acquired = raw.acquired;
    redistributable = raw.redistributable;
    url = raw.url;
    notes = raw.notes;
  })

unfoldable pub add_source : Text × RawSource → Dict Source → Result (Dict Source)
unfolding build_source insert
add_source (key, raw) sources = do s ← build_source key raw; ok (insert key s sources)

-- `lock` is `none` where there is no lock file.
unfoldable pub load_sources : Option Lock → Result (Dict Source)
unfolding add_source is_supported fold_result is_empty
load_sources none = err source_error
load_sources (some lock) = do
  raise_if (not (is_supported lock.schema_version)) source_error
  sources ← fold_result add_source lock.sources []
  raise_if (is_empty sources) source_error
  ok sources

unfoldable pub get_source : Text → Option Lock → Result Source
unfolding load_sources lookup
get_source key lock = do sources ← load_sources lock; require (lookup key sources) source_error
