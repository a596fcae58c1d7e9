-- ===== src/Prelude/Paths.antt =====
-- `filepath.Clean` of Go on Unix: the elements of the path on a stack.
use Prim.Native.Char.{Char, code}
use Prim.Native.String.{String}
use Prim.Native.String
use mathlib.Core.Path.{◌≡◌, refl}
use mathlib.Core.Bool.{Bool, false, ◌||◌}
use mathlib.Core.List.{List, [], ◌∷◌, reverse}
use text.Mathlib.Text.{◌==◌}
use aht.Prelude.Tests.{nat_eq, if◌then◌else◌}

-- The elements between the slashes; the first may be empty.
abbrev extend_first : Char → List String → List String
extend_first c [] = String.◌∷◌ c String.[] ∷ []
extend_first c (e ∷ es) = String.◌∷◌ c e ∷ es

elements : String → List String
elements String.[] = "" ∷ []
elements (String.◌∷◌ c s) =
    let rest = elements s in if nat_eq (code c) b'/' then "" ∷ rest else extend_first c rest

is_rooted : String → Bool
is_rooted String.[] = false
is_rooted (String.◌∷◌ c s) = nat_eq (code c) b'/'

-- `..` takes back the last element, and is dropped at the root.
back : Bool → List String → List String
back rooted [] = if rooted then [] else ".." ∷ []
back rooted (e ∷ stack) = if e == ".." then ".." ∷ e ∷ stack else stack

push : Bool → List String → String → List String
unfolding back
push rooted stack e =
    if e == "" || e == "." then stack else if e == ".." then back rooted stack else e ∷ stack

pushes : Bool → List String → List String → List String
unfolding push
pushes rooted stack [] = stack
pushes rooted stack (e ∷ es) = pushes rooted (push rooted stack e) es

join : List String → String
join [] = ""
join (e ∷ []) = e
join (e ∷ f ∷ es) = String.◌++◌ e (String.◌++◌ "/" (join (f ∷ es)))

abbrev or_dot : String → String
or_dot s = if s == "" then "." else s

unfoldable pub clean : String → String
unfolding elements is_rooted pushes join
clean path =
    let path_elements = join (reverse (pushes (is_rooted path) [] (elements path))) in
    if is_rooted path then String.◌++◌ "/" path_elements else or_dot path_elements

last_element : String → List String → String
last_element found [] = found
last_element found (e ∷ es) = last_element (if e == "" then found else e) es

-- `filepath.Base`.
unfoldable pub base : String → String
unfolding elements last_element
base path = if path == "" then "." else last_element "/" (elements path)

base_test : base "/home/me/aht/" ≡ "aht"
unfolding base
base_test = refl

clean_test : clean "/a/./b//../c/" ≡ "/a/c"
unfolding clean
clean_test = refl

clean_up_test : clean "a/../../b" ≡ "../b"
unfolding clean
clean_up_test = refl

clean_empty_test : clean "" ≡ "."
unfolding clean
clean_empty_test = refl
