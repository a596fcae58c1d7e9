-- ===== src/Examples/Loads.antt =====
-- Loads of a manifest.
use aht.Prelude.{◌≡◌, refl, true, some, [], ◌∷◌, ◌==◌, map}
use aht.Prelude.Lists.{All}
use aht.AgentState.Model.{Manifest, done, failed, is_done}
use aht.AgentState.Region.Lines.{free_of}
use aht.AgentState.Loader.{
  Catalog, Files, content, info, load_uncached, load_bundled, override_path,
}
use aht.AgentState.Loader.Cached.{Request, IsHonest, load_all, uncached, load_all-uncached}
use aht.AgentState.Loader.Loads.{load_uncached-HasPassed}
use aht.AgentState.Manifest.Parsed.{HasPassed}
use aht.Examples.Screens.{tools, manifest}

-- The file of the user does not parse; the one of the program does.
abbrev catalog : Catalog
catalog = record {
  supports_screen = λ h. h == "codex";
  screen_manifest = λ h. some (1 ∷ []);
  decode = λ b. elim b [ [] ↦ failed "no version" | _ ∷ _ ↦ done manifest ];
}

abbrev broken_override : Files
broken_override = record { stat = λ path. info 5 0 420; open_file = λ path. content [] }

path_test :
    override_path "" "/home/me/.config/aht/detection" "codex"
    ≡ "/home/me/.config/aht/detection/codex.toml"
unfolding override_path
path_test = refl

abbrev request : Request
request = record { files = broken_override; harness = "codex"; path = "/codex.toml" }

requests-IsHonest : All (IsHonest (λ path print. content [])) (request ∷ request ∷ [])
unfolding All free_of
requests-IsHonest = ((refl, refl), ((refl, refl), tt))

load_all-uncached_example :
    load_all tools catalog (request ∷ request ∷ []) []
    ≡ map (uncached tools catalog) (request ∷ request ∷ [])
load_all-uncached_example =
    load_all-uncached tools catalog (λ path print. content []) (request ∷ request ∷ [])
      requests-IsHonest

load_uncached-HasPassed_example :
    ((m : Manifest)
      → load_uncached tools catalog "codex" "/codex.toml" (content []) ≡ done m
      → HasPassed tools "codex" m)
    × (catalog.supports_screen "codex" ≡ true
        → is_done (load_uncached tools catalog "codex" "/codex.toml" (content []))
          ≡ is_done (load_bundled tools catalog "codex"))
load_uncached-HasPassed_example =
    load_uncached-HasPassed tools catalog "codex" "/codex.toml" (content [])
