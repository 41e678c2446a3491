-- ===== src/Pipeline/Written/Path.antt =====
-- Where the files of catalogs are written: run.go.
use network_adapter.Prelude.{
  ◌≡◌, refl, subst, inl, inr, Bool, true, false, not, some, List, [], ◌∷◌, ◌++◌, all, any,
  All-append, arith, Bool-cases, Str, str_eq, str_eq_iff, str_eq_refl, is_empty, ◌==◌, ==_iff, ℕ,
  ◌≢◌,
}
use network_adapter.Text.{str, Without, split_of_Without}
use network_adapter.Pipeline.Render.{is_slug, is_slug_character}
use network_adapter.Pipeline.Path.{clean, same_parts, entry_of}
use network_adapter.Pipeline.Files.{file_name, json_suffix}

same_parts_refl : (dir : List Str) → same_parts dir dir ≡ true
unfolding same_parts
same_parts_refl [] = refl
same_parts_refl (p ∷ ps) = ground (arith, str_eq_refl p, same_parts_refl ps)

abbrev has_dash : Str → Bool
has_dash s = any (λ c. c == b'-') s

has_dash-is_empty : (s : Str) → has_dash s ≡ true → is_empty s ≡ false
has_dash-is_empty [] h = cc
has_dash-is_empty (c ∷ s) h = refl

has_dash-str_eq : (s t : Str) → has_dash s ≡ true → has_dash t ≡ false → str_eq s t ≡ false
has_dash-str_eq s t h n = elim (Bool-cases (str_eq s t)) [
  | inl e ↦
      let other : has_dash t ≡ true = subst (λ x. has_dash x ≡ true) ((str_eq_iff s t).0 e) h in
      absurd cc
  | inr e ↦ e
]

has_dash-file_name : (prefix slug : Str) → has_dash (file_name prefix slug) ≡ true
unfolding file_name
has_dash-file_name [] slug = refl
has_dash-file_name (c ∷ prefix) slug = ground (arith, has_dash-file_name prefix slug)

entry_of-name :
    (rooted : Bool) (dir : List Str) (name : Str)
    → Without b'/' name
    → has_dash name ≡ true
    → entry_of rooted dir name ≡ some name
unfolding entry_of clean
entry_of-name rooted dir name plain dash =
    rw
      (
        split_of_Without b'/' name plain,
        has_dash-is_empty name dash,
        has_dash-str_eq name (str ".") dash refl,
        has_dash-str_eq name (str "..") dash refl,
        same_parts_refl dir,
      )
      refl

Without-all : (b : ℕ) (s : Str) → all (λ c. not (c == b)) s ≡ true → Without b s
Without-all b [] h = tt
Without-all b (c ∷ s) h = (λ e. ground (arith, (==_iff c b).1 e), Without-all b s (ground arith))

letters-Without : (s : Str) → all is_slug_character s ≡ true → Without b'/' s
unfolding is_slug_character
letters-Without [] h = tt
letters-Without (c ∷ s) h = (λ e. ground arith, letters-Without s (ground arith))

is_slug-Without : (slug : Str) → is_slug slug ≡ true → Without b'/' slug
unfolding is_slug
is_slug-Without slug h = letters-Without slug (ground arith)

file_name-Without :
    (prefix slug : Str)
    → Without b'/' prefix
    → is_slug slug ≡ true
    → Without b'/' (file_name prefix slug)
unfolding file_name
file_name-Without prefix slug plain safe =
    All-append (λ c. c ≢ b'/') prefix (str "-" ++ (slug ++ json_suffix)) plain
      (All-append (λ c. c ≢ b'/') (str "-") (slug ++ json_suffix) (Without-all b'/' (str "-") refl)
        (All-append (λ c. c ≢ b'/') slug json_suffix (is_slug-Without slug safe)
          (Without-all b'/' json_suffix refl)))

-- The file of a catalog with a safe slug stands in the output directory, if the prefix has no "/".
pub entry_of-file_name :
    (rooted : Bool) (dir : List Str) (prefix slug : Str)
    → Without b'/' prefix
    → is_slug slug ≡ true
    → entry_of rooted dir (file_name prefix slug) ≡ some (file_name prefix slug)
entry_of-file_name rooted dir prefix slug plain safe =
    entry_of-name rooted dir (file_name prefix slug) (file_name-Without prefix slug plain safe)
      (has_dash-file_name prefix slug)
