-- ===== src/Bindings/Loader.antt =====
-- utils/python/libhw/_ffi.py: where the shared library is looked for, and loading it once.
use libhw.Base.{
  Bool, List, Option, Result, Text, [], codes, err, hw_library_not_found, if◌then◌else◌, none, not,
  ok, or_else, some, truthy, ◌++◌, ◌||◌, ◌∷◌,
}
use libhw.Bindings.Library.{Library}

-- A library, and the state of the world that it meets.
pub record Loaded : Type 1 where
  pub library : Library
  pub world : library.World

-- What the search asks of the system. `parents` are the directories above `_ffi.py`, `bundled_dir` is the
-- one of the copy that a wheel carries, `find_library` is that of `ctypes.util` for "hw", and `cdll` is
-- `ctypes.CDLL`, where `none` stands for an `OSError`.
pub record System : Type 1 where
  pub environ : Text → Option Text
  pub expanduser : Text → Text
  pub is_file : Text → Bool
  pub is_absolute : Text → Bool
  pub parents : List Text
  pub bundled_dir : Text
  pub find_library : Option Text
  pub cdll : Text → Option Loaded

abbrev pub library_env : Text
library_env = codes "LIBHW_LIBRARY"

abbrev pub library_name : Text
library_name = codes "libhw.so"

module _ (s : System) where
  -- `if override: out.append(...)`
  unfoldable pub override_paths : List Text
  unfolding truthy or_else
  override_paths =
      let override = s.environ library_env in
      if truthy override then s.expanduser (or_else override []) ∷ [] else []

  -- The first build tree above this file that has the library.
  unfoldable pub built_path : List Text → List Text
  built_path [] = []
  built_path (parent ∷ ps) =
      let candidate = parent ++ codes "/out/" ++ library_name in
      let later = built_path ps in if s.is_file candidate then candidate ∷ [] else later

  unfoldable pub bundled_path : List Text
  bundled_path =
      let bundled = s.bundled_dir ++ codes "/" ++ library_name in
      if s.is_file bundled then bundled ∷ [] else []

  unfoldable pub found_path : List Text
  unfolding truthy or_else
  found_path = if truthy s.find_library then or_else s.find_library [] ∷ [] else []

  -- `_candidate_paths`
  unfoldable pub candidate_paths : List Text
  unfolding override_paths built_path bundled_path found_path
  candidate_paths = override_paths ++ built_path s.parents ++ bundled_path ++ found_path

  -- `if path.is_file() or not path.is_absolute(): try: ...`
  unfoldable pub try_path : Text → Option Loaded
  try_path path = if s.is_file path || not (s.is_absolute path) then s.cdll path else none

  unfoldable pub load_first : List Text → Result Loaded
  unfolding try_path
  load_first [] = err hw_library_not_found
  load_first (path ∷ paths) =
      let later = load_first paths in elim (try_path path) [ some l ↦ ok l | none ↦ later ]

  unfoldable pub load_library : Result Loaded
  unfolding load_first candidate_paths
  load_library = load_first candidate_paths

  -- `lib()`, over the module's `_lib`: what it returns, and `_lib` afterwards.
  unfoldable pub lib : Option Loaded → Result Loaded × Option Loaded
  unfolding load_library
  lib (some l) = (ok l, some l)
  lib none = elim load_library [ ok l ↦ (ok l, some l) | err e ↦ (err e, none) ]
