-- ===== src/Router/Join.antt =====
-- joinPath of router.go, and the path.Join and path.Clean that it calls.
use network_adapter.Prelude.{
  Bool, true, false, ◌||◌, List, [], ◌∷◌, ◌++◌, reverse, if◌then◌else◌, is_empty, Str, str_eq, ◌==◌,
}
use network_adapter.Text.{str, split, join}
use network_adapter.Model.{Url}

-- `..` goes up where there is something to leave; the stack has its top at the head.
go_up : Bool → List Str → List Str
go_up true [] = []
go_up false [] = str ".." ∷ []
go_up rooted (top ∷ stack) = if str_eq top (str "..") then str ".." ∷ top ∷ stack else stack

clean_part : Bool → List Str → Str → List Str
unfolding go_up
clean_part rooted stack part =
    if is_empty part || str_eq part (str ".")
    then stack
    else if str_eq part (str "..")
    then go_up rooted stack
    else part ∷ stack

clean_parts : Bool → List Str → List Str → List Str
unfolding clean_part
clean_parts rooted stack [] = reverse stack
clean_parts rooted stack (part ∷ parts) = clean_parts rooted (clean_part rooted stack part) parts

rendered : Bool → Str → Str
rendered true p = b'/' ∷ p
rendered false [] = str "."
rendered false (c ∷ p) = c ∷ p

-- path.Clean
clean : Str → Str
unfolding clean_parts rendered split join
clean [] = str "."
clean (c ∷ p) =
    rendered (c == b'/') (join (str "/") (clean_parts (c == b'/') [] (split b'/' (c ∷ p))))

-- path.Join of two elements; an empty one is left out.
unfoldable pub path_join : Str → Str → Str
unfolding clean
path_join [] [] = []
path_join [] (d ∷ b) = clean (d ∷ b)
path_join (c ∷ a) [] = clean (c ∷ a)
path_join (c ∷ a) (d ∷ b) = clean ((c ∷ a) ++ (b'/' ∷ d ∷ b))

-- joinPath
unfoldable pub join_path : Url → Str → Str
unfolding path_join
join_path u endpoint = path_join (if is_empty u.path then str "/" else u.path) endpoint
