-- ===== src/AgentState/Loader.antt =====
-- internal/agentstate/manifest.go: the manifest of a harness, from the file of the user or from
-- the program, and the cache of the loads.
pub mod Cached
pub mod Loads
use Prim.Native.String.{◌++◌}
use aht.Prelude.{
  ◌≡◌, ℕ, pos, Bool, true, false, ◌==◌, Option, none, some, String, List, if◌then◌else◌, ltb,
}
use aht.Prelude.Text.{itoa}
use aht.Prelude.Lists.{length}
use aht.Prelude.Paths.{clean}
use aht.Prelude.Dict.{Dict, lookup, insert}
use aht.Registry.Model.{Harness}
use aht.AgentState.Model.{Tools, Manifest, Outcome, failed, done, ◌>>=◌}
use aht.AgentState.Manifest.{invalid, parse_manifest, max_manifest_bytes}

-- What `os.Open` and `io.ReadAll` make of a file; the texts are those of their errors.
pub data Opened : Type 0 where
  absent : String → Opened
  open_failed : String → Opened
  read_failed : String → Opened
  content : List ℕ → Opened

-- What `os.Stat` says of a file.
pub data Stat : Type 0 where
  no_file : Stat
  stat_failed : String → Stat
  info : (modified size mode : ℕ) → Stat

pub record Files : Type 0 where
  pub stat : String → Stat
  pub open_file : String → Opened

-- The harness catalog, and the TOML decoder.
pub record Catalog : Type 0 where
  pub supports_screen : Harness → Bool
  pub screen_manifest : Harness → Option (List ℕ)
  pub decode : List ℕ → Outcome Manifest

-- What `readManifestFile` returns: an error that is `os.ErrNotExist`, another one, or the bytes.
pub data Read : Type 0 where
  missing : Read
  unreadable : String → Read
  bytes : List ℕ → Read

-- `readManifestFile`; one byte more than allowed is read.
unfoldable pub read_manifest_file : Opened → Read
unfolding max_manifest_bytes length
read_manifest_file (absent cause) = missing
read_manifest_file (open_failed cause) = unreadable ("open manifest: " ++ cause)
read_manifest_file (read_failed cause) = unreadable ("read manifest: " ++ cause)
read_manifest_file (content b) =
    if ltb max_manifest_bytes (length b)
    then unreadable "detection manifest exceeds 1 MiB"
    else bytes b

abbrev pub fingerprint_of : Stat → String
fingerprint_of no_file = "missing"
fingerprint_of (stat_failed cause) = "error:" ++ cause
fingerprint_of (info modified size mode) =
    itoa (pos modified) ++ (":" ++ (itoa (pos size) ++ (":" ++ itoa (pos mode))))

-- `manifestFileFingerprint`.
unfoldable pub manifest_file_fingerprint : String → Stat → String
manifest_file_fingerprint path stat = if path == "" then "none" else fingerprint_of stat

-- `overridePath`, from the directory of the loader and that of the user.
unfoldable pub override_path : String → String → Harness → String
unfolding clean
override_path config_dir default_dir h =
    let dir = if config_dir == "" then default_dir else config_dir in
    if dir == "" then "" else clean (dir ++ ("/" ++ (h ++ ".toml")))

abbrev pub with_source : String → Manifest → Manifest
with_source source m = record m { source = source }

abbrev pub explained : String → Outcome Manifest → Outcome Manifest
explained prefix (done m) = done m
explained prefix (failed cause) = failed (prefix ++ cause)

abbrev pub bundled_bytes : Tools → Catalog → Harness → Option (List ℕ) → Outcome Manifest
bundled_bytes t c h none =
    failed ("reading bundled manifest for " ++ (h ++ ": bundled detection manifest not found"))
bundled_bytes t c h (some b) =
    explained ("loading bundled manifest for " ++ (h ++ ": ")) (parse_manifest t c.decode b h)
    >>= λ m. done (with_source ("bundled:" ++ h) m)

-- `loadBundled`.
unfoldable pub load_bundled : Tools → Catalog → Harness → Outcome Manifest
unfolding parse_manifest
load_bundled t c h = bundled_bytes t c h (c.screen_manifest h)

abbrev pub unsupported_screen : Tools → Harness → Outcome Manifest
unsupported_screen t h = invalid ("unsupported screen harness " ++ t.quote h)

-- What is left of `loadUncached` when an override cannot be used.
abbrev pub fall_back : Option Manifest → String → String → Outcome Manifest
fall_back (some bundled) warning error = done (record bundled { warning = warning })
fall_back none warning error = failed error

abbrev pub parsed_override : Option Manifest → String → Outcome Manifest → Outcome Manifest
parsed_override bundled path (done local) = done (with_source path local)
parsed_override bundled path (failed cause) =
    fall_back bundled ("ignoring invalid local override " ++ (path ++ (": " ++ cause)))
      ("loading local override " ++ (path ++ (": " ++ cause)))

abbrev pub bundled_only : Tools → Harness → Option Manifest → Outcome Manifest
bundled_only t h (some bundled) = done bundled
bundled_only t h none = unsupported_screen t h

abbrev pub override : Tools → Catalog → Harness → String → Option Manifest → Read → Outcome Manifest
override t c h path bundled missing = bundled_only t h bundled
override t c h path bundled (unreadable cause) =
    fall_back bundled ("reading local override " ++ (path ++ (": " ++ cause)))
      ("reading local override " ++ (path ++ (": " ++ cause)))
override t c h path bundled (bytes b) = parsed_override bundled path (parse_manifest t c.decode b h)

-- `loadUncached` behind the load of the bundled manifest, which only a supported harness has.
unfoldable pub load_override :
    Tools → Catalog → Harness → String → Opened → Option Manifest → Outcome Manifest
unfolding parse_manifest read_manifest_file
load_override t c h path opened bundled =
    if path == ""
    then bundled_only t h bundled
    else override t c h path bundled (read_manifest_file opened)

-- `loadUncached`.
unfoldable pub load_uncached : Tools → Catalog → Harness → String → Opened → Outcome Manifest
unfolding load_bundled load_override
load_uncached t c h path opened =
    if c.supports_screen h
    then (load_bundled t c h >>= λ bundled. load_override t c h path opened (some bundled))
    else load_override t c h path opened none

pub record ManifestCacheEntry : Type 0 where
  pub fingerprint : String
  pub manifest : Outcome Manifest

abbrev pub Cache : Type 0
Cache = Dict ManifestCacheEntry

-- `string(harnessID) + "\x00" + path`.
abbrev pub cache_key : Harness → String → String
cache_key h path = h ++ ("\0" ++ path)

abbrev pub cached : Option ManifestCacheEntry → String → Option (Outcome Manifest)
cached none print = none
cached (some e) print = if e.fingerprint == print then some e.manifest else none

abbrev pub or_loaded :
    Option (Outcome Manifest)
    → Outcome Manifest
    → String
    → String
    → Cache
    → Outcome Manifest × Cache
or_loaded (some m) loaded print key cache = (m, cache)
or_loaded none loaded print key cache =
    (loaded, insert key (record { fingerprint = print; manifest = loaded }) cache)

-- `Loader.Load`, at the path of the override; the cache is the variable `manifestCache`.
unfoldable pub load : Tools → Catalog → Files → Harness → String → Cache → Outcome Manifest × Cache
unfolding load_uncached manifest_file_fingerprint lookup insert
load t c files h path cache =
    let print = manifest_file_fingerprint path (files.stat path) in
    or_loaded (cached (lookup (cache_key h path) cache) print)
      (load_uncached t c h path (files.open_file path)) print (cache_key h path) cache
