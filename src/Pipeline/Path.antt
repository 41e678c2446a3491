-- ===== src/Pipeline/Path.antt =====
-- filepath.Join of the output directory and a file's name, as WriteCatalogs of run.go calls it.
use network_adapter.Prelude.{
  Bool, true, false, ◌||◌, ◌&&◌, Option, none, some, List, [], ◌∷◌, if◌then◌else◌, is_empty, Str,
  str_eq,
}
use network_adapter.Text.{str, split}

-- The parts of a path, innermost first, after a "..".
abbrev climbed : Bool → List Str → List Str
climbed rooted [] = if rooted then [] else str ".." ∷ []
climbed rooted (p ∷ up) = if str_eq p (str "..") then str ".." ∷ p ∷ up else up

abbrev into : Bool → List Str → Str → List Str
into rooted parts part =
    if is_empty part || str_eq part (str ".")
    then parts
    else if str_eq part (str "..")
    then climbed rooted parts
    else part ∷ parts

-- filepath.Clean of a path whose first parts are clean.
unfoldable pub clean : Bool → List Str → List Str → List Str
clean rooted parts [] = parts
clean rooted parts (part ∷ rest) = clean rooted (into rooted parts part) rest

unfoldable pub same_parts : List Str → List Str → Bool
same_parts [] [] = true
same_parts (p ∷ ps) (q ∷ qs) = str_eq p q && same_parts ps qs
same_parts [] (q ∷ qs) = false
same_parts (p ∷ ps) [] = false

abbrev pub named_in : List Str → List Str → Option Str
named_in dir [] = none
named_in dir (name ∷ up) = if same_parts up dir then some name else none

-- The entry of the directory that `filepath.Join(dir, name)` stands for; none where it leads to
-- another directory. `dir` is the cleaned path of the directory, innermost part first.
unfoldable pub entry_of : Bool → List Str → Str → Option Str
unfolding clean same_parts split
entry_of rooted dir name = named_in dir (clean rooted dir (split b'/' name))
