-- ===== src/Examples/Probes.antt =====
-- The command `libhw-probe` on the small library, and on a system without one.
use libhw.Base.{
  Option, [], codes, err, false, hw_library_not_found, none, ok, refl, some, starts_with, text_eq,
  true, ◌∷◌, ◌≡◌, ◌≢◌,
}
use libhw.Bindings.Loader.{Loaded, System}
use libhw.Bindings.Probe.{Arguments, probe_main}
use libhw.Bindings.Probe.Status.{probe_main-status}
use libhw.Bindings.StateDb.{CpuFeatures}
use libhw.Bindings.Structs.{HwCpuFeatures}
use libhw.Examples.Targets.{mock}

abbrev arguments : Arguments
arguments = record { backend = codes "mock"; host = none; port = 0; resume = true }

abbrev loaded : Loaded
loaded = record { library = mock; world = 0 }

-- A system with the library in the build tree above the package, or with none.
abbrev system : Option Loaded → System
system l = record {
  environ = λ _. none;
  expanduser = λ p. p;
  is_file = λ p. text_eq p (codes "/repo/out/libhw.so");
  is_absolute = λ p. starts_with p (codes "/");
  parents = codes "/repo/utils/python/libhw" ∷ codes "/repo" ∷ [];
  bundled_dir = codes "/repo/utils/python/libhw/_lib";
  find_library = none;
  cdll = λ p. l;
}

abbrev raw_features : HwCpuFeatures
raw_features = record {
  cpuid = 0;
  partno = 0;
  variant = 0;
  revision = 0;
  overlay_revision = none;
  revision_matches = 0;
  cpu_name = none;
  overlay = none;
  fp_extension = 0;
  mpu = 0;
  mpu_regions = 0;
  dwt_numcomp = 0;
  nvic_intlinesnum = 0;
}

abbrev features : CpuFeatures
features = record {
  cpuid = 0;
  partno = 0;
  variant = 0;
  revision = 0;
  cpu_name = none;
  overlay = none;
  overlay_revision = none;
  revision_matches = false;
  fp_extension = false;
  mpu = false;
  mpu_regions = 0;
  dwt_numcomp = 0;
  nvic_intlinesnum = 0;
  raw = raw_features;
}

probe_main-status_example : probe_main (system none) arguments ≢ ok 2
probe_main-status_example = probe_main-status (system none) arguments

-- The exception of a missing library is not caught.
probe_main-missing : probe_main (system none) arguments ≡ err hw_library_not_found
unfolding probe_main text_eq starts_with
probe_main-missing = refl

probe_main-found : probe_main (system (some loaded)) arguments ≡ ok 0
unfolding probe_main text_eq starts_with
probe_main-found = refl
