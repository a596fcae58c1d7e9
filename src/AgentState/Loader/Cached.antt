-- ===== src/AgentState/Loader/Cached.antt =====
-- internal/agentstate/manifest.go: the cache changes no answer.
use Prim.Native.String
use text.Mathlib.TextLemmas.{nil-append, cons-append, append_cancel_left}
use aht.Prelude.{
  ◌≡◌, refl, sym, ap, subst, ◌∙◌, Bool, true, false, ◌==◌, Option, none, some, String, List, [],
  ◌∷◌, if◌then◌else◌, arith, eq_iff, map,
}
use aht.Prelude.Lists.{All}
use aht.Prelude.Strings.{split}
use aht.Prelude.Dict.{lookup, insert, lookup-insert}
use aht.Registry.Model.{Harness}
use aht.AgentState.Model.{Tools, Manifest, Outcome}
use aht.AgentState.Region.Lines.{free_of}
use aht.AgentState.Loader.{
  Files, Catalog, Opened, manifest_file_fingerprint, load_uncached, ManifestCacheEntry, Cache,
  cache_key, load, cached, or_loaded,
}

-- The harness is the part of a key before the NUL, which its name has not.
split_key : (h path : String) → free_of 0 h ≡ true → split 0 (cache_key h path) ≡ h ∷ split 0 path
unfolding split free_of
split_key String.[] path k =
    rw (nil-append (String.◌++◌ "\0" path))
      (rw (cons-append "\0" "" path) (rw (nil-append path) refl))
split_key (String.◌∷◌ c s) path k =
    rw (cons-append c s (String.◌++◌ "\0" path)) (ground (arith, k, split_key s path))

abbrev first_part : List String → String
first_part [] = ""
first_part (e ∷ es) = e

cache_key_inj :
    (h g path other : String)
    → free_of 0 h ≡ true
    → free_of 0 g ≡ true
    → cache_key h path ≡ cache_key g other
    → (h ≡ g) × (path ≡ other)
cache_key_inj h g path other k l e =
    let same : h ≡ g =
      ap first_part (sym (split_key h path k) ∙ ap (split 0) e ∙ split_key g other l) in
    (
      same,
      append_cancel_left "\0" path other (
          append_cancel_left g (String.◌++◌ "\0" path) (String.◌++◌ "\0" other)
            (subst (λ x. cache_key x path ≡ cache_key g other) same e)),
    )

module _ (t : Tools) (c : Catalog) (contents : String → String → Opened) where
  -- Every entry is the answer for the file that has its fingerprint.
  pub IsCoherent : Cache → Type 0
  IsCoherent cache =
      (h path : String) (e : ManifestCacheEntry)
      → free_of 0 h ≡ true
      → lookup (cache_key h path) cache ≡ some e
      → e.manifest ≡ load_uncached t c h path (contents path e.fingerprint)

  insert-IsCoherent :
      (h path : String) (e : ManifestCacheEntry) (cache : Cache)
      → free_of 0 h ≡ true
      → e.manifest ≡ load_uncached t c h path (contents path e.fingerprint)
      → IsCoherent cache
      → IsCoherent (insert (cache_key h path) e cache)
  unfolding IsCoherent
  insert-IsCoherent h path e cache k answer coherent g other d l found =
      go (cache_key h path == cache_key g other) refl
        (sym (lookup-insert (cache_key h path) (cache_key g other) e cache) ∙ found)
    where
      go :
          (b : Bool)
          → (cache_key h path == cache_key g other) ≡ b
          → (if b then some e else lookup (cache_key g other) cache) ≡ some d
          → d.manifest ≡ load_uncached t c g other (contents other d.fingerprint)
      go false f found = coherent g other d l found
      go true f found =
          let (same_h, same_path) =
            cache_key_inj h g path other k l
              ((eq_iff (cache_key h path) (cache_key g other)).0 f) in
          let same : e ≡ d = cc (found) in
          subst (λ x. x.manifest ≡ load_uncached t c g other (contents other x.fingerprint)) same
            (subst (λ x. e.manifest ≡ load_uncached t c x other (contents other e.fingerprint))
              same_h
              (subst (λ x. e.manifest ≡ load_uncached t c h x (contents x e.fingerprint)) same_path
                answer))

  empty-IsCoherent : IsCoherent []
  unfolding IsCoherent lookup
  empty-IsCoherent h path e k found = cc (found)

  load-IsCoherent :
      (files : Files) (h path : String) (cache : Cache)
      → files.open_file path ≡ contents path (manifest_file_fingerprint path (files.stat path))
      → free_of 0 h ≡ true
      → IsCoherent cache
      → ((load t c files h path cache).0 ≡ load_uncached t c h path (files.open_file path))
        × IsCoherent (load t c files h path cache).1
  unfolding load
  load-IsCoherent files h path cache fresh k coherent = go (lookup (cache_key h path) cache) refl
    where
      print : String
      print = manifest_file_fingerprint path (files.stat path)

      answer : Outcome Manifest
      answer = load_uncached t c h path (files.open_file path)

      stored :
          IsCoherent
            (insert (cache_key h path) (record { fingerprint = print; manifest = answer }) cache)
      stored =
          insert-IsCoherent h path (record { fingerprint = print; manifest = answer }) cache k
            (ap (load_uncached t c h path) fresh) coherent

      use_entry :
          (e : ManifestCacheEntry)
          → lookup (cache_key h path) cache ≡ some e
          → (b : Bool) → (e.fingerprint == print) ≡ b
          → let result =
              or_loaded
                (if b then some e.manifest else none)
                answer
                print
                (cache_key h path)
                cache in
            (result.0 ≡ answer) × IsCoherent result.1
      use_entry e found false f = (refl, stored)
      use_entry e found true f =
          let same : e.fingerprint ≡ print = (eq_iff e.fingerprint print).0 f in
          (
            unfold IsCoherent in
                coherent h path e k found
                ∙ ap (λ x. load_uncached t c h path (contents path x)) same
                ∙ ap (load_uncached t c h path) (sym fresh),
            coherent,
          )

      go :
          (o : Option ManifestCacheEntry)
          → lookup (cache_key h path) cache ≡ o
          → let result = or_loaded (cached o print) answer print (cache_key h path) cache in
            (result.0 ≡ answer) × IsCoherent result.1
      go none found = (refl, stored)
      go (some e) found = use_entry e found (e.fingerprint == print) refl

-- One call of `Load`, with the files as they are at the time.
pub record Request : Type 0 where
  pub files : Files
  pub harness : Harness
  pub path : String

-- The answers of calls that follow each other.
unfoldable pub load_all : Tools → Catalog → List Request → Cache → List (Outcome Manifest)
unfolding load
load_all t c [] cache = []
load_all t c (r ∷ rest) cache =
    let (answer, next) = load t c r.files r.harness r.path cache in answer ∷ load_all t c rest next

abbrev pub uncached : Tools → Catalog → Request → Outcome Manifest
uncached t c r = load_uncached t c r.harness r.path (r.files.open_file r.path)

-- The content of the file is that of its fingerprint, and the harness has a name without NUL.
abbrev pub IsHonest : (String → String → Opened) → Request → Type 0
IsHonest contents r =
    (r.files.open_file r.path
      ≡ contents r.path (manifest_file_fingerprint r.path (r.files.stat r.path)))
    × (free_of 0 r.harness ≡ true)

load_all-coherent :
    (t : Tools) (c : Catalog) (contents : String → String → Opened) (requests : List Request)
    (cache : Cache)
    → IsCoherent t c contents cache
    → All (IsHonest contents) requests
    → load_all t c requests cache ≡ map (uncached t c) requests
unfolding load_all All
load_all-coherent t c contents [] cache coherent h = refl
load_all-coherent t c contents (r ∷ rest) cache coherent ((fresh, k), h) =
    let (same, next) =
      load-IsCoherent t c contents r.files r.harness r.path cache fresh k coherent in
    let others =
      load_all-coherent t c contents rest (load t c r.files r.harness r.path cache).1 next h in
    cc (same, others)

-- Calls of `Loader.Load` that follow each other from an empty cache, between which the files
-- change, each give what `loadUncached` gives on the files at the time, errors included, where
-- files of one fingerprint have one content and no harness has a NUL in its name.
pub load_all-uncached :
    (t : Tools) (c : Catalog) (contents : String → String → Opened) (requests : List Request)
    → All (IsHonest contents) requests
    → load_all t c requests [] ≡ map (uncached t c) requests
load_all-uncached t c contents requests h =
    load_all-coherent t c contents requests [] (empty-IsCoherent t c contents) h
