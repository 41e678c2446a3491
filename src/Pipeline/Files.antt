-- ===== src/Pipeline/Files.antt =====
-- The directory of built catalogs: WriteCatalogs and RemoveStaleCatalogs of run.go, catalogFiles of
-- interpreter.go.
use network_adapter.Prelude.{
  ℕ, ◌++◌, Bool, true, false, ◌&&◌, Option, none, some, List, [], ◌∷◌, reverse, if◌then◌else◌, leb,
  Str, lookup, insert, ◌==◌,
}
use network_adapter.Text.{str, has_prefix, has_suffix, trim_prefix, trim_suffix, str_lt}
use network_adapter.Pipeline.Path.{entry_of}
use network_adapter.Pipeline.Fault.{Fault, Run, done, fail, wrap, within, Doing, ◌>>=◌, ◌>>-◌, only}
use network_adapter.Pipeline.Spec.{BuiltCatalog}
use network_adapter.Pipeline.Order.{sort_stable}

-- What stands under a name in the directory.
pub data Entry : Type 0 where
  file : Str → Entry
  directory : Entry

-- The entries of the directory, in the order that os.ReadDir gives them.
abbrev pub Directory : Type 0
Directory = List (Str × Entry)

-- The output directory's cleaned path, its parts innermost first; the errors of the file system,
-- and json.Indent. `path` is the text of filepath.Join of the directory and a name.
pub record Disk : Type 0 where
  pub rooted : Bool
  pub dir : List Str
  pub path : Str → Str
  pub mkdir_error : Option Fault
  pub read_error : Option Fault
  pub remove_error : Str → Option Fault
  pub write_error : Str → Option Fault
  pub is_a_directory : Str → Fault
  pub indent : Str → Run Str

abbrev pub json_suffix : Str
json_suffix = str ".json"

-- A file named `<prefix>-….json`.
unfoldable pub is_catalog : Str → Str → Entry → Bool
unfolding has_prefix has_suffix
is_catalog prefix name (file content) =
    has_prefix (prefix ++ str "-") name && has_suffix json_suffix name
is_catalog prefix name directory = false

-- The name of a catalog's file.
unfoldable pub file_name : Str → Str → Str
file_name prefix slug = prefix ++ (str "-" ++ (slug ++ json_suffix))

abbrev pub stop_at : Option Fault → List Str → Run (Unit {0})
stop_at none pieces = done tt
stop_at (some f) pieces = fail (wrap pieces f)

-- catalogFile
pub record CatalogFile : Type 0 where
  pub slug : Str
  pub group : Str
  pub content : Str

abbrev is_digit : ℕ → Bool
is_digit c = leb b'0' c && leb c b'9'

-- The reversed group of a reversed slug: without the digits and the "-" in front of it, where it
-- begins so; `digits` says that one was passed.
unfoldable pub without_digits : Bool → Str → Option Str
without_digits digits [] = none
without_digits digits (c ∷ s) =
    let rest = without_digits true s in
    if is_digit c then rest else if digits && c == b'-' then some s else none

-- chunkSuffix.ReplaceAllString(slug, "")
unfoldable pub group_of : Str → Str
unfolding without_digits
group_of slug = elim (without_digits false (reverse slug)) [
  | none ↦ slug
  | some rest ↦ reverse rest
]

module _ (prefix : Str) where
  unfoldable pub slug_of : Str → Str
  unfolding trim_prefix trim_suffix
  slug_of name = trim_suffix json_suffix (trim_prefix (prefix ++ str "-") name)

  abbrev pub catalog_file : Str → Entry → List CatalogFile
  catalog_file name (file content) =
      record { slug = slug_of name; group = group_of (slug_of name); content = content } ∷ []
  catalog_file name directory = []

  -- The catalogs of the directory, in its order.
  unfoldable pub files_in : Directory → List CatalogFile
  unfolding is_catalog slug_of group_of
  files_in [] = []
  files_in ((name, entry) ∷ entries) =
      if is_catalog prefix name entry
      then catalog_file name entry ++ files_in entries
      else files_in entries

  abbrev pub slug_lt : CatalogFile → CatalogFile → Bool
  slug_lt a b = str_lt a.slug b.slug

  module _ (disk : Disk) where
    -- catalogFiles
    unfoldable pub catalog_files : Directory → Run (List CatalogFile)
    unfolding files_in sort_stable str_lt
    catalog_files dir = stop_at disk.read_error (str "read catalog directory: " ∷ []) >>= λ _.
        done (sort_stable slug_lt (files_in dir))

    abbrev pub kept_entry : Str × Entry → Directory × Run (Unit {0}) → Directory × Run (Unit {0})
    kept_entry entry (dir, res) = (entry ∷ dir, res)

    abbrev pub removed :
        Str × Entry
        → Directory
        → Directory × Run (Unit {0})
        → Option Fault
        → Directory × Run (Unit {0})
    removed entry entries rest none = rest
    removed entry entries rest (some f) =
        (entry ∷ entries, fail (wrap (str "remove stale catalog " ∷ entry.0 ∷ str ": " ∷ []) f))

    -- The loop of RemoveStaleCatalogs.
    unfoldable pub remove_entries : Directory → Directory × Run (Unit {0})
    unfolding is_catalog
    remove_entries [] = ([], done tt)
    remove_entries ((name, entry) ∷ entries) =
        let rest = remove_entries entries in
        if is_catalog prefix name entry
        then removed (name, entry) entries rest (disk.remove_error name)
        else kept_entry (name, entry) rest

    -- RemoveStaleCatalogs
    unfoldable pub remove_stale_catalogs : Doing Directory (Unit {0})
    unfolding remove_entries
    remove_stale_catalogs =
        only (stop_at disk.read_error (str "read catalog output directory: " ∷ [])) >>- λ _.
        remove_entries

    abbrev pub write_to : Str → Str → Option Entry → Run (Unit {0})
    write_to name content (some directory) = fail (
        wrap (str "write catalog file " ∷ disk.path name ∷ str ": " ∷ [])
          (disk.is_a_directory name))
    write_to name content _ =
        stop_at (disk.write_error name) (str "write catalog file " ∷ disk.path name ∷ str ": " ∷ [])

    -- os.WriteFile to a path in the directory, or to one outside, which leaves the directory.
    abbrev pub write_at : Str → Str → Option Str → Doing Directory (Unit {0})
    write_at name content (some entry) dir =
        (only (write_to name content (lookup entry dir)) >>- λ _.
        λ d. (insert entry (file content) d, done tt))
          dir
    write_at name content none dir = (dir, write_to name content none)

    -- os.WriteFile to `filepath.Join(dir, name)`
    unfoldable pub write_file : Str → Str → Doing Directory (Unit {0})
    unfolding lookup insert entry_of
    write_file name content = write_at name content (entry_of disk.rooted disk.dir name)

    unfoldable pub write_catalog : BuiltCatalog → Doing Directory (Unit {0})
    unfolding write_file file_name
    write_catalog b =
        only
          (within (str "indent JSON for catalog " ∷ b.slug ∷ str ": " ∷ []) (disk.indent b.content))
        >>- write_file (file_name prefix b.slug)

    unfoldable pub write_all : List BuiltCatalog → Doing Directory (Unit {0})
    unfolding write_catalog
    write_all [] = only (done tt)
    write_all (b ∷ bs) = write_catalog b >>- λ _. write_all bs

    -- WriteCatalogs
    unfoldable pub write_catalogs : List BuiltCatalog → Doing Directory (Unit {0})
    unfolding remove_stale_catalogs write_all
    write_catalogs built =
        only (stop_at disk.mkdir_error (str "create catalog output directory: " ∷ [])) >>- λ _.
        remove_stale_catalogs >>- λ _. write_all built
