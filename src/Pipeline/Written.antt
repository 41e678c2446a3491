-- ===== src/Pipeline/Written.antt =====
-- The publish step reads exactly the catalogs that the build step wrote: run.go, interpreter.go.
mod Name
mod Path
use network_adapter.Prelude.{
  ◌≡◌, refl, sym, ap, ◌∙◌, subst, inl, inr, Bool, true, false, Option, none, some, List, [], ◌∷◌,
  ◌++◌, reverse, append_assoc, append-nil, reverse-append, reverse-reverse, any, All, arith,
  if◌then◌else◌, Bool-cases, if-both, Str, str_eq, str_eq_iff, str_eq_refl, lookup, insert,
  lookup-insert,
}
use network_adapter.Text.{
  Without, str, reversed, strip_prefix, strip_suffix, has_prefix, has_suffix, trim_prefix,
  trim_suffix, strip_prefix-append,
}
use network_adapter.Pipeline.Fault.{
  Fault, Run, done, fail, within, within-eq-done, After, After-only, After-then, After-done,
  After-map,
}
use network_adapter.Pipeline.Spec.{BuiltCatalog, Catalog}
use network_adapter.Pipeline.Value.{Engine, Record}
use network_adapter.Pipeline.Context.{RunContext}
use network_adapter.Pipeline.Build.{fold_slug, Tally, build_catalogs}
use network_adapter.Pipeline.Order.{sort_stable}
use network_adapter.Pipeline.Named.{build_catalogs-distinct}
use network_adapter.Pipeline.Written.Path.{entry_of-file_name}
use network_adapter.Pipeline.Named.Fresh.{Safe, distinct, folded}
use network_adapter.Pipeline.Files.{
  Entry, file, directory, Directory, Disk, is_catalog, file_name, CatalogFile, group_of, slug_of,
  files_in, catalog_files, remove_entries, remove_stale_catalogs, write_file, write_catalog,
  write_all, write_catalogs, json_suffix, catalog_file, kept_entry, removed, write_to, stop_at,
  slug_lt,
}
use network_adapter.Pipeline.Written.Name.{
  slug_of-file_name, is_catalog-file_name, no_file, Clean, Apart, distinct-Apart, insert-append,
  files_in-append, Clean-insert,
}

-- A write where no file is adds the file at the end.
module _ (prefix : Str) where
  module _ (disk : Disk) where
    abbrev text_of : Run Str → Str
    text_of (done s) = s
    text_of (fail f) = []

    -- The file of a catalog.
    abbrev pub file_of : BuiltCatalog → CatalogFile
    file_of b = record {
      slug = b.slug;
      group = group_of b.slug;
      content = text_of (disk.indent b.content);
    }

    abbrev pub files_of : List BuiltCatalog → List CatalogFile
    files_of [] = []
    files_of (b ∷ bs) = file_of b ∷ files_of bs

    -- What a successful write leaves.
    abbrev Adds : Directory → BuiltCatalog → Directory → Unit {0} → Type 0
    Adds dir b dir' u =
        (dir' ≡ insert (file_name prefix b.slug) (file (text_of (disk.indent b.content))) dir)
        × (lookup (file_name prefix b.slug) dir ≡ none)

    not_there :
        (name content : Str) (o : Option Entry) {u : Unit {0}}
        → no_file o ≡ true
        → write_to prefix disk name content o ≡ done u
        → o ≡ none
    not_there name content none c h = refl
    not_there name content (some (file t)) c h = cc
    not_there name content (some directory) c h = cc

    write_catalog-Adds :
        (b : BuiltCatalog) (dir : Directory)
        → Without b'/' prefix
        → Safe b
        → no_file (lookup (file_name prefix b.slug) dir) ≡ true
        → After (Adds dir b) (write_catalog prefix disk b dir)
    unfolding write_catalog write_file
    write_catalog-Adds b dir plain safe c =
        let name = file_name prefix b.slug in
        After-only (Adds dir b) dir
          (within (str "indent JSON for catalog " ∷ b.slug ∷ str ": " ∷ []) (disk.indent b.content))
          _
          λ content p.
            let e : disk.indent b.content ≡ done content =
              within-eq-done _ (disk.indent b.content) p in
            rw (entry_of-file_name disk.rooted disk.dir prefix b.slug plain safe) (
              After-only (Adds dir b) dir (write_to prefix disk name content (lookup name dir)) _
                λ u q. (
                  ap (λ t. insert name (file (text_of t)) dir) (sym e),
                  not_there name content (lookup name dir) c q,
                ))

    files_in-Adds :
        (b : BuiltCatalog) (dir dir' : Directory) (u : Unit {0})
        → Adds dir b dir' u
        → files_in prefix dir' ≡ files_in prefix dir ++ file_of b ∷ []
    unfolding files_in
    files_in-Adds b dir dir' u (e, n) =
        let name = file_name prefix b.slug in
        let entry = file (text_of (disk.indent b.content)) in
        ap (files_in prefix) (e ∙ insert-append name entry dir n)
        ∙ files_in-append prefix dir ((name, entry) ∷ [])
        ∙ ap (λ t. files_in prefix dir ++ t)
            (rw
              (
                is_catalog-file_name prefix b.slug (text_of (disk.indent b.content)),
                slug_of-file_name prefix b.slug,
              )
              refl)

    abbrev Wrote : Directory → List BuiltCatalog → Directory → Unit {0} → Type 0
    Wrote dir bs dir' u = files_in prefix dir' ≡ files_in prefix dir ++ files_of bs

    write_all-Wrote :
        (bs : List BuiltCatalog) (dir : Directory)
        → Without b'/' prefix
        → All Safe bs
        → distinct (folded bs) ≡ true
        → Clean prefix dir bs
        → After (Wrote dir bs) (write_all prefix disk bs dir)
    unfolding write_all
    write_all-Wrote [] dir plain safe d c = sym (append-nil (files_in prefix dir))
    write_all-Wrote (b ∷ bs) dir plain safe d c =
        After-then (Wrote dir (b ∷ bs)) (Adds dir b) (write_catalog prefix disk b dir) _
          (write_catalog-Adds b dir plain safe.0 c.0)
          λ dir' u a.
            let apart : Apart prefix b.slug bs = distinct-Apart prefix b.slug bs (ground arith) in
            let clean : Clean prefix dir' bs =
              subst (λ t. Clean prefix t bs) (sym a.0)
                (Clean-insert prefix b.slug _ dir bs apart c.1) in
            After-map (Wrote dir' bs) (Wrote dir (b ∷ bs)) (write_all prefix disk bs dir')
              (λ dir'' v w.
                w
                ∙ ap (λ t. t ++ files_of bs) (files_in-Adds b dir dir' u a)
                ∙ append_assoc (files_in prefix dir) (file_of b ∷ []) (files_of bs))
              (write_all-Wrote bs dir' plain safe.1 (ground arith) clean)

    -- A directory without catalogs.
    abbrev Emptied : Directory → Unit {0} → Type 0
    Emptied dir u = All (λ e. is_catalog prefix e.0 e.1 ≡ false) dir

    kept_entry-Emptied :
        (entry : Str × Entry) (s : Directory × Run (Unit {0}))
        → is_catalog prefix entry.0 entry.1 ≡ false
        → After Emptied s
        → After Emptied (kept_entry prefix disk entry s)
    kept_entry-Emptied entry (dir, done u) n h = (n, h)
    kept_entry-Emptied entry (dir, fail f) n h = tt

    next-Emptied :
        (name : Str) (entry : Entry) (dir : Directory) (c : Bool) (o : Option Fault)
        (rest : Directory × Run (Unit {0}))
        → After Emptied rest
        → is_catalog prefix name entry ≡ c
        → After Emptied (
            if c
            then removed prefix disk (name, entry) dir rest o
            else kept_entry prefix disk (name, entry) rest)
    next-Emptied name entry dir true none rest h e = h
    next-Emptied name entry dir true (some f) rest h e = tt
    next-Emptied name entry dir false o rest h e = kept_entry-Emptied (name, entry) rest e h

    remove_entries-Emptied : (dir : Directory) → After Emptied (remove_entries prefix disk dir)
    unfolding remove_entries
    remove_entries-Emptied [] = tt
    remove_entries-Emptied ((name, entry) ∷ dir) =
        next-Emptied name entry dir (is_catalog prefix name entry) (disk.remove_error name)
          (remove_entries prefix disk dir) (remove_entries-Emptied dir) refl

    Emptied-files_in : (dir : Directory) (u : Unit {0}) → Emptied dir u → files_in prefix dir ≡ []
    unfolding files_in
    Emptied-files_in [] u h = refl
    Emptied-files_in ((name, entry) ∷ dir) u h = rw (h.0) (Emptied-files_in dir u h.1)

    Emptied-no_file :
        (slug : Str) (dir : Directory) (u : Unit {0})
        → Emptied dir u
        → no_file (lookup (file_name prefix slug) dir) ≡ true
    unfolding lookup
    Emptied-no_file slug [] u h = refl
    Emptied-no_file slug ((name, directory) ∷ dir) u h =
        if-both (λ o. no_file o ≡ true) (str_eq name (file_name prefix slug)) refl
          (Emptied-no_file slug dir u h.1)
    Emptied-no_file slug ((name, file content) ∷ dir) u h =
        elim (Bool-cases (str_eq name (file_name prefix slug))) [
          | inl same ↦
              let e : is_catalog prefix (file_name prefix slug) (file content) ≡ false =
                subst (λ t. is_catalog prefix t (file content) ≡ false)
                  ((str_eq_iff name (file_name prefix slug)).0 same) h.0 in
              let f = is_catalog-file_name prefix slug content in cc
          | inr other ↦ rw other (Emptied-no_file slug dir u h.1)
        ]

    Emptied-Clean :
        (dir : Directory) (u : Unit {0}) (bs : List BuiltCatalog)
        → Emptied dir u
        → Clean prefix dir bs
    Emptied-Clean dir u [] h = tt
    Emptied-Clean dir u (b ∷ bs) h = (Emptied-no_file b.slug dir u h, Emptied-Clean dir u bs h)

    -- When the prefix holds no "/" and WriteCatalogs succeeds on catalogs whose slugs are safe and
    -- differ without regard to case, catalogFiles lists exactly these catalogs, sorted by slug, each
    -- with its own content and group: no catalog of an earlier run is left. The directory can be
    -- read.
    pub write_catalogs-catalog_files :
        (built : List BuiltCatalog) (dir dir' : Directory)
        → Without b'/' prefix
        → All Safe built
        → distinct (folded built) ≡ true
        → disk.read_error ≡ none
        → write_catalogs prefix disk built dir ≡ (dir', done tt)
        → catalog_files prefix disk dir' ≡ done (sort_stable (slug_lt prefix) (files_of built))
    unfolding write_catalogs catalog_files remove_stale_catalogs
    write_catalogs-catalog_files built dir dir' plain safe d r h =
        let P : Directory → Unit {0} → Type 0 = λ e u. files_in prefix e ≡ files_of built in
        let files : files_in prefix dir' ≡ files_of built =
          After-done P (write_catalogs prefix disk built dir)
            (After-only P dir
              (stop_at disk.mkdir_error (str "create catalog output directory: " ∷ [])) _
              λ u p.
                After-then P Emptied (remove_stale_catalogs prefix disk dir)
                  (λ _. write_all prefix disk built)
                  (After-only Emptied dir
                    (stop_at disk.read_error (str "read catalog output directory: " ∷ [])) _
                    λ u1 p1. remove_entries-Emptied dir)
                  λ e u2 emptied.
                    After-map (Wrote e built) P (write_all prefix disk built e)
                      (λ e' v w. w ∙ ap (λ t. t ++ files_of built) (Emptied-files_in e u2 emptied))
                      (write_all-Wrote built e plain safe d (Emptied-Clean e u2 built emptied)))
            h in
        rw (r, files) refl

-- When buildCatalogs succeeds, the file prefix holds no "/", the directory can be read, and
-- WriteCatalogs succeeds on what was built, catalogFiles lists exactly the catalogs that were built,
-- sorted by slug, each with its own content and group.
pub build_catalogs-catalog_files :
    (engine : Engine) (base : Str) (catalog : Catalog) (rc : RunContext) (rows : List Record)
    (t : Tally) (built : List BuiltCatalog) (prefix : Str) (disk : Disk) (dir dir' : Directory)
    → Without b'/' prefix
    → build_catalogs engine base catalog rc rows ≡ (t, done built)
    → disk.read_error ≡ none
    → write_catalogs prefix disk built dir ≡ (dir', done tt)
    → catalog_files prefix disk dir'
      ≡ done (sort_stable (slug_lt prefix) (files_of prefix disk built))
build_catalogs-catalog_files engine base catalog rc rows t built prefix disk dir dir' plain b r w =
    let (safe, d) = build_catalogs-distinct engine base catalog rc rows t built b in
    write_catalogs-catalog_files prefix disk built dir dir' plain safe d r w
