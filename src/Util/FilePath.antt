-- ===== src/Util/FilePath.antt =====
-- The functions of Go's `path` that the drivers call, on Unix paths; `path/filepath` agrees there.
use Prim.Native.Char.{code}
use Prim.Native.String.{◌++◌ as ◌<>◌}
use baiducloud_cce_csi_drive.Base.{
  ℕ, String, Bool, true, false, ◌||◌, List, [], ◌∷◌, ◌==◌, ◌≡◌, refl, starts_with, eqb,
  if◌then◌else◌,
}
use baiducloud_cce_csi_drive.Util.Text.{split}

unfoldable pub join_text : String → List String → String
join_text sep [] = ""
join_text sep (p ∷ []) = p
join_text sep (p ∷ q ∷ ps) = p <> sep <> join_text sep (q ∷ ps)

-- One element of a path, on the elements before it, the last one first.
abbrev step_back : Bool → List String → List String
step_back true [] = []
step_back false [] = ".." ∷ []
step_back rooted (top ∷ rest) = if top == ".." then ".." ∷ top ∷ rest else rest

resolve : Bool → List String → List String → List String
resolve rooted done [] = done
resolve rooted done (p ∷ ps) =
    resolve rooted
      (if p == "" || p == "." then done else if p == ".." then step_back rooted done else p ∷ done)
      ps

reversed : List String → List String → List String
reversed [] acc = acc
reversed (p ∷ ps) acc = reversed ps (p ∷ acc)

render : Bool → List String → String
render true ps = "/" <> join_text "/" ps
render false [] = "."
render false (p ∷ ps) = join_text "/" (p ∷ ps)

-- path.Clean
unfoldable pub clean : String → String
unfolding resolve reversed render split join_text
clean path =
    let rooted = starts_with path "/" in
    render rooted (reversed (resolve rooted [] (split b'/' path)) [])

has : ℕ → String → Bool
has sep String.[] = false
has sep (String.◌∷◌ c s) = eqb (code c) sep || has sep s

up_to_last : ℕ → String → String
unfolding has
up_to_last sep String.[] = ""
up_to_last sep (String.◌∷◌ c s) =
    let rest = up_to_last sep s in if eqb (code c) sep || has sep s then String.◌∷◌ c rest else ""

-- path.Dir
unfoldable pub dir : String → String
unfolding clean up_to_last
dir path = clean (up_to_last b'/' path)

abbrev not_empty : List String → List String
not_empty [] = []
not_empty (p ∷ ps) = let rest = not_empty ps in if p == "" then rest else p ∷ rest

abbrev clean_join : List String → String
clean_join [] = ""
clean_join (p ∷ ps) = clean (join_text "/" (p ∷ ps))

-- path.Join
unfoldable pub join : List String → String
unfolding clean
join ps = clean_join (not_empty ps)

dir_of_file : dir "/a//b/../c" ≡ "/a"
unfolding dir
dir_of_file = refl
