-- ===== src/AgentState/Loader/Loads.antt =====
-- internal/agentstate/manifest.go: every manifest that is loaded has passed the checks.
use Prim.Native.String.{◌++◌}
use aht.Prelude.{
  ◌≡◌, refl, subst, ℕ, Bool, true, false, ◌==◌, Option, none, some, String, List, if◌then◌else◌,
}
use aht.Registry.Model.{Harness}
use aht.AgentState.Model.{Tools, Manifest, Outcome, done, failed, is_done, ◌>>=◌}
use aht.AgentState.Manifest.{validate, parse_manifest}
use aht.AgentState.Loader.{
  with_source, Catalog, Opened, Read, missing, unreadable, bytes, load_uncached, load_bundled,
  load_override, bundled_bytes, read_manifest_file, explained, parsed_override, bundled_only,
  override, fall_back,
}
use aht.AgentState.Manifest.Parsed.{HasPassed, parse_manifest-HasPassed}

module _ (t : Tools) (c : Catalog) (h : Harness) where
  -- Whatever is returned has passed.
  abbrev Passes : Outcome Manifest → Type 0
  Passes (done m) = HasPassed t h m
  Passes (failed cause) = Unit

  abbrev BundledPasses : Option Manifest → Type 0
  BundledPasses none = Unit
  BundledPasses (some m) = HasPassed t h m

  parse_manifest-Passes : (b : List ℕ) → Passes (parse_manifest t c.decode b h)
  parse_manifest-Passes b =
      go (parse_manifest t c.decode b h) (λ m e. parse_manifest-HasPassed t c.decode b h m e)
    where
      go : (o : Outcome Manifest) → ((m : Manifest) → o ≡ done m → HasPassed t h m) → Passes o
      go (done m) f = f m refl
      go (failed cause) f = tt

  load_bundled-Passes : Passes (load_bundled t c h)
  unfolding load_bundled
  load_bundled-Passes = go (c.screen_manifest h)
    where
      source :
          (o : Outcome Manifest)
          → Passes o
          → Passes (
              explained ("loading bundled manifest for " ++ (h ++ ": ")) o >>= λ m.
              done (with_source ("bundled:" ++ h) m))
      source (done m) p = unfold validate in p
      source (failed cause) p = tt

      go : (o : Option (List ℕ)) → Passes (bundled_bytes t c h o)
      go none = tt
      go (some b) = source (parse_manifest t c.decode b h) (parse_manifest-Passes b)

  fall_back-Passes :
      (bundled : Option Manifest) (warning error : String)
      → BundledPasses bundled
      → Passes (fall_back bundled warning error)
  unfolding validate
  fall_back-Passes none warning error p = tt
  fall_back-Passes (some m) warning error p = p

  bundled_only-Passes :
      (bundled : Option Manifest) → BundledPasses bundled → Passes (bundled_only t h bundled)
  bundled_only-Passes none p = tt
  bundled_only-Passes (some m) p = p

  override-Passes :
      (path : String) (bundled : Option Manifest) (r : Read)
      → BundledPasses bundled
      → Passes (override t c h path bundled r)
  override-Passes path bundled missing p = bundled_only-Passes bundled p
  override-Passes path bundled (unreadable cause) p = fall_back-Passes bundled _ _ p
  override-Passes path bundled (bytes b) p =
      go (parse_manifest t c.decode b h) (parse_manifest-Passes b)
    where
      go : (o : Outcome Manifest) → Passes o → Passes (parsed_override bundled path o)
      go (done m) q = unfold validate in q
      go (failed cause) q = fall_back-Passes bundled _ _ p

  load_override-Passes :
      (path : String) (opened : Opened) (bundled : Option Manifest)
      → BundledPasses bundled
      → Passes (load_override t c h path opened bundled)
  unfolding load_override
  load_override-Passes path opened bundled p =
      elim (path == "")
        as (λ b. Passes (
          if b
          then bundled_only t h bundled
          else override t c h path bundled (read_manifest_file opened))) [
            | true ↦ bundled_only-Passes bundled p
            | false ↦ override-Passes path bundled (read_manifest_file opened) p
          ]

  load_uncached-Passes :
      (path : String) (opened : Opened) → Passes (load_uncached t c h path opened)
  unfolding load_uncached
  load_uncached-Passes path opened =
      go (c.supports_screen h) (load_bundled t c h) load_bundled-Passes
    where
      go :
          (b : Bool) (o : Outcome Manifest)
          → Passes o
          → Passes (
              if b
              then (o >>= λ bundled. load_override t c h path opened (some bundled))
              else load_override t c h path opened none)
      go false o p = load_override-Passes path opened none tt
      go true (done m) p = load_override-Passes path opened (some m) p
      go true (failed cause) p = tt

  -- A bundled manifest is never lost.
  load_override-is_done :
      (path : String) (opened : Opened) (m : Manifest)
      → is_done (load_override t c h path opened (some m)) ≡ true
  unfolding load_override
  load_override-is_done path opened m =
      elim (path == "")
        as (λ b.
          is_done (
            if b
            then bundled_only t h (some m)
            else override t c h path (some m) (read_manifest_file opened))
          ≡ true) [ true ↦ refl | false ↦ go (read_manifest_file opened) ]
    where
      parsed : (o : Outcome Manifest) → is_done (parsed_override (some m) path o) ≡ true
      parsed (done local) = refl
      parsed (failed cause) = refl

      go : (r : Read) → is_done (override t c h path (some m) r) ≡ true
      go missing = refl
      go (unreadable cause) = refl
      go (bytes b) = parsed (parse_manifest t c.decode b h)

  -- Whatever the file of the user holds, a manifest that `loadUncached` returns is one of the
  -- harness and passes `validate`; and for a harness whose screen is supported the load fails
  -- only where that of the bundled manifest fails.
  pub load_uncached-HasPassed :
      (path : String) (opened : Opened)
      → ((m : Manifest) → load_uncached t c h path opened ≡ done m → HasPassed t h m)
        × (c.supports_screen h ≡ true
            → is_done (load_uncached t c h path opened) ≡ is_done (load_bundled t c h))
  load_uncached-HasPassed path opened = (
    λ m e. subst Passes e (load_uncached-Passes path opened),
    λ s. unfold load_uncached in go (c.supports_screen h) (load_bundled t c h) s,
  )
    where
      go :
          (b : Bool) (o : Outcome Manifest)
          → b ≡ true
          → is_done (
              if b
              then (o >>= λ bundled. load_override t c h path opened (some bundled))
              else load_override t c h path opened none)
            ≡ is_done o
      go false o s = cc
      go true (done m) s = load_override-is_done path opened m
      go true (failed cause) s = refl
