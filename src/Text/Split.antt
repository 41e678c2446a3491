-- ===== src/Text/Split.antt =====
-- strings.Split at a one-character separator, and strings.Join.
use network_adapter.Prelude.{
  ℕ, ◌≡◌, refl, ap, ◌∙◌, List, [], ◌∷◌, ◌++◌, arith, ◌==◌, if◌then◌else◌, Str, All,
}
use network_adapter.Text.Search.{Without}

-- Put a character in front of the first part.
abbrev pub push_first : ℕ → List Str → List Str
push_first c [] = (c ∷ []) ∷ []
push_first c (w ∷ ws) = (c ∷ w) ∷ ws

-- strings.Split(s, sep) for a separator of one character.
unfoldable pub split : ℕ → Str → List Str
split sep [] = [] ∷ []
split sep (c ∷ s) = let rest = split sep s in if c == sep then [] ∷ rest else push_first c rest

-- strings.Join(parts, sep)
unfoldable pub join : Str → List Str → Str
join sep [] = []
join sep (w ∷ []) = w
join sep (w ∷ v ∷ ws) = w ++ (sep ++ join sep (v ∷ ws))

-- A part without the separator ends at the separator.
pub split-append :
    (sep : ℕ) (w s : Str) → Without sep w → split sep (w ++ sep ∷ s) ≡ w ∷ split sep s
unfolding split
split-append sep [] s h = ground arith
split-append sep (c ∷ w) s h = ground (arith, split-append sep w s h.1)

pub split_of_Without : (sep : ℕ) (w : Str) → Without sep w → split sep w ≡ w ∷ []
unfolding split
split_of_Without sep [] h = refl
split_of_Without sep (c ∷ w) h = ground (arith, split_of_Without sep w h.1)

-- Parts without the separator come back from their join.
pub split-join :
    (sep : ℕ) (w : Str) (ws : List Str)
    → All (Without sep) (w ∷ ws)
    → split sep (join (sep ∷ []) (w ∷ ws)) ≡ w ∷ ws
unfolding join
split-join sep w [] h = split_of_Without sep w h.0
split-join sep w (v ∷ ws) h =
    split-append sep w (join (sep ∷ []) (v ∷ ws)) h.0 ∙ ap (λ r. w ∷ r) (split-join sep v ws h.1)
