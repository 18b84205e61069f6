-- ===== src/Sources.antt =====
-- tools/state/sources.py: the pinned manuals. The machine (file system, environment, SHA-256) is a
-- record of functions. A path is its text; `/` joins with a slash and does not normalise.
pub mod Verify
pub mod Lock
use libhw.Base.{
  Bool, List, Option, Result, Text, [], any, codes, drop, err, false, if◌then◌else◌, length, none,
  not, ok, or_else, raise_if, some, source_error, suc, take, text_eq, truthy, zero, ℕ, ◌++◌, ◌+◌,
  ◌==◌, ◌>>=◌, ◌>>◌, ◌^◌, ◌∷◌,
}

pub record Source : Type 0 where
  pub key : Text
  pub kind : Text
  pub document : Text
  pub revision : Text
  pub title : Text
  pub architecture : Text
  pub sha256 : Text
  pub path : Text
  pub bytes : Option ℕ
  pub pages : Option ℕ
  pub product_revision : Option Text
  pub acquired : Option Text
  pub redistributable : Bool
  pub url : Option Text
  pub notes : Option Text

-- What the code asks of the machine. `digest` is `hashlib.sha256(...).hexdigest()`.
pub record Machine : Type 0 where
  pub environ : Text → Option Text
  pub expanduser : Text → Text
  pub is_file : Text → Bool
  pub content : Text → List ℕ
  pub digest : List ℕ → Text
  pub repo_root : Text

abbrev pub source_dir_env : Text
source_dir_env = codes "HW_SPEC_SOURCE_DIR"

-- `a / b`
unfoldable pub join_path : Text → Text → Text
join_path a b = a ++ (b'/' ∷ b)

unfoldable pub is_absolute : Text → Bool
is_absolute [] = false
is_absolute (c ∷ s) = c == b'/'

-- `pathlib.Path(p).name`: what follows the last slash.
unfoldable pub base_name : Text → Text
base_name [] = []
base_name (c ∷ s) =
    let later = base_name s in
    if any (λ x. x == b'/') (c ∷ s) then (if any (λ x. x == b'/') s then later else s) else c ∷ s

-- The candidate under the override directory, if the environment names one.
unfoldable pub override_candidate : Machine → Source → List Text
unfolding join_path base_name truthy
override_candidate m s =
    let override = m.environ source_dir_env in
    if truthy override
    then join_path (m.expanduser (or_else override [])) (base_name s.path) ∷ []
    else []

unfoldable pub locked_candidate : Machine → Source → Text
unfolding is_absolute join_path
locked_candidate m s =
    let p = m.expanduser s.path in if is_absolute p then p else join_path m.repo_root p

unfoldable pub candidates : Machine → Source → List Text
unfolding override_candidate locked_candidate
candidates m s = override_candidate m s ++ (locked_candidate m s ∷ [])

-- `for c in candidates: if c.is_file(): return c`
unfoldable pub first_file : Machine → List Text → Result Text
first_file m [] = err source_error
first_file m (c ∷ cs) = if m.is_file c then ok c else first_file m cs

unfoldable pub resolve : Machine → Source → Result Text
unfolding candidates first_file
resolve m s = first_file m (candidates m s)

abbrev pub chunk_size : ℕ
chunk_size = 2 ^ 20

-- `for chunk in iter(lambda: fh.read(n), b"")`: the digest has been fed `fed`, of `size` bytes.
-- Each round but the last reads a byte, so fuel above the number of bytes left suffices.
unfoldable pub read_loop : ℕ → ℕ → List ℕ → List ℕ → ℕ → List ℕ × ℕ
read_loop zero n rest fed size = (fed, size)
read_loop (suc fuel) n rest fed size =
    let chunk = take n rest in
    elim chunk [
      | [] ↦ (fed, size)
      | b ∷ bs ↦ read_loop fuel n (drop n rest) (fed ++ (b ∷ bs)) (size + length (b ∷ bs))
    ]

unfoldable pub read_all : Machine → Text → List ℕ × ℕ
unfolding read_loop
read_all m path = let bytes = m.content path in read_loop (suc (length bytes)) chunk_size bytes [] 0

-- `if self.bytes is not None and size != self.bytes: raise`
unfoldable pub check_size : Option ℕ → ℕ → Text → Result Text
check_size none size path = ok path
check_size (some n) size path = if size == n then ok path else err source_error

unfoldable pub verify : Machine → Source → Result Text
unfolding resolve read_all check_size
verify m s = do
  path ← resolve m s
  let (fed, size) = read_all m path
  raise_if (not (text_eq (m.digest fed) s.sha256)) source_error
  check_size s.bytes size path
