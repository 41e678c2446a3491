-- ===== src/Pipeline/Written/Name.antt =====
-- The file names of catalogs, and the directory that holds them: run.go, interpreter.go.
use network_adapter.Prelude.{
  ◌≡◌, refl, sym, ap, ◌∙◌, subst, inl, inr, Bool, true, false, Option, none, some, List, [], ◌∷◌,
  ◌++◌, reverse, append_assoc, reverse-append, reverse-reverse, any, All, arith, Bool-cases, Str,
  str_eq, str_eq_iff, str_eq_refl, lookup, insert, lookup-insert,
}
use network_adapter.Text.{
  str, reversed, strip_prefix, strip_suffix, has_prefix, has_suffix, trim_prefix, trim_suffix,
  strip_prefix-append,
}
use network_adapter.Pipeline.Spec.{BuiltCatalog}
use network_adapter.Pipeline.Build.{fold_slug}
use network_adapter.Pipeline.Named.Fresh.{folded}
use network_adapter.Pipeline.Files.{
  Entry, file, directory, Directory, is_catalog, file_name, slug_of, files_in, json_suffix,
  catalog_file,
}

strip_suffix-append : (s t : Str) → strip_suffix t (s ++ t) ≡ some s
unfolding strip_suffix
strip_suffix-append s t =
    ap (λ r. reversed (strip_prefix (reverse t) r)) (reverse-append s t)
    ∙ ap reversed (strip_prefix-append (reverse t) (reverse s))
    ∙ ap some (reverse-reverse s)

-- No entry under the name is a file.
abbrev pub no_file : Option Entry → Bool
no_file none = true
no_file (some (file content)) = false
no_file (some directory) = true

pub insert-append :
    (k : Str) (v : Entry) (dir : Directory)
    → lookup k dir ≡ none
    → insert k v dir ≡ dir ++ (k, v) ∷ []
unfolding lookup insert
insert-append k v [] h = refl
insert-append k v ((j, w) ∷ dir) h = ground (arith, insert-append k v dir)

module _ (prefix : Str) where
  file_name-front :
      (slug : Str) → file_name prefix slug ≡ (prefix ++ str "-") ++ (slug ++ json_suffix)
  unfolding file_name
  file_name-front slug = sym (append_assoc prefix (str "-") (slug ++ json_suffix))

  file_name-back :
      (slug : Str) → file_name prefix slug ≡ ((prefix ++ str "-") ++ slug) ++ json_suffix
  file_name-back slug =
      file_name-front slug ∙ sym (append_assoc (prefix ++ str "-") slug json_suffix)

  pub slug_of-file_name : (slug : Str) → slug_of prefix (file_name prefix slug) ≡ slug
  unfolding slug_of trim_prefix trim_suffix
  slug_of-file_name slug =
      rw
        (
          file_name-front slug,
          strip_prefix-append (prefix ++ str "-") (slug ++ json_suffix),
          strip_suffix-append slug json_suffix,
        )
        refl

  pub is_catalog-file_name :
      (slug content : Str) → is_catalog prefix (file_name prefix slug) (file content) ≡ true
  unfolding is_catalog has_prefix has_suffix
  is_catalog-file_name slug content =
      let front : has_prefix (prefix ++ str "-") (file_name prefix slug) ≡ true =
        rw (file_name-front slug, strip_prefix-append (prefix ++ str "-") (slug ++ json_suffix))
          refl in
      let back : has_suffix json_suffix (file_name prefix slug) ≡ true =
        rw (file_name-back slug, strip_suffix-append ((prefix ++ str "-") ++ slug) json_suffix)
          refl in
      rw (front, back) refl

  abbrev pub Clean : Directory → List BuiltCatalog → Type 0
  Clean dir bs = All (λ b. no_file (lookup (file_name prefix b.slug) dir) ≡ true) bs

  abbrev pub Apart : Str → List BuiltCatalog → Type 0
  Apart slug bs = All (λ b. str_eq (file_name prefix slug) (file_name prefix b.slug) ≡ false) bs

  file_name-injective : (s t : Str) → file_name prefix s ≡ file_name prefix t → s ≡ t
  file_name-injective s t e =
      sym (slug_of-file_name s) ∙ ap (slug_of prefix) e ∙ slug_of-file_name t

  pub distinct-Apart :
      (slug : Str) (bs : List BuiltCatalog)
      → any (str_eq (fold_slug slug)) (folded bs) ≡ false
      → Apart slug bs
  distinct-Apart slug [] h = tt
  distinct-Apart slug (b ∷ bs) h = (
    elim (Bool-cases (str_eq (file_name prefix slug) (file_name prefix b.slug))) [
      | inl same ↦
          let e : slug ≡ b.slug =
            file_name-injective slug b.slug
              ((str_eq_iff (file_name prefix slug) (file_name prefix b.slug)).0 same) in
          let f : str_eq (fold_slug slug) (fold_slug b.slug) ≡ true =
            subst (λ t. str_eq (fold_slug slug) (fold_slug t) ≡ true) e
              (str_eq_refl (fold_slug slug)) in
          ground arith
      | inr other ↦ other
    ],
    distinct-Apart slug bs (ground arith),
  )

  pub files_in-append :
      (xs ys : Directory) → files_in prefix (xs ++ ys) ≡ files_in prefix xs ++ files_in prefix ys
  unfolding files_in
  files_in-append [] ys = refl
  files_in-append ((name, entry) ∷ xs) ys = elim (Bool-cases (is_catalog prefix name entry)) [
    | inl is ↦
        rw (is, files_in-append xs ys)
          (sym (
            append_assoc (catalog_file prefix name entry) (files_in prefix xs)
              (files_in prefix ys)))
    | inr isnt ↦ rw isnt (files_in-append xs ys)
  ]

  pub Clean-insert :
      (slug : Str) (v : Entry) (dir : Directory) (bs : List BuiltCatalog)
      → Apart slug bs
      → Clean dir bs
      → Clean (insert (file_name prefix slug) v dir) bs
  Clean-insert slug v dir [] a c = tt
  Clean-insert slug v dir (b ∷ bs) a c = (
    rw (lookup-insert (file_name prefix slug) (file_name prefix b.slug) v dir, a.0) c.0,
    Clean-insert slug v dir bs a.1 c.1,
  )
