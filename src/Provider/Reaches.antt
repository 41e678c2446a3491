-- ===== src/Provider/Reaches.antt =====
-- What a path reaches, as a relation, and that walk finds it.
use network_adapter.Prelude.{
  ◌≡◌, refl, sym, subst, ◌↔◌, ◌⊎◌, inl, inr, true, false, some, List, [], ◌∷◌, ◌++◌, Str,
  Bool-cases, Option-cases,
}
use network_adapter.Json.{Json, as_array}
use network_adapter.Crawl.Unique.{In}
use network_adapter.Provider.Paths.{is_marked, child_of, elements_of, collect, walk}

-- The node itself; a leaf behind a field; a leaf behind one element of an array.
pub data Reaches : List Str → Json → Json → Type 0 where
  here : (node : Json) → Reaches [] node node
  field :
      (segment : Str) (segments : List Str) (node child leaf : Json)
      → is_marked segment ≡ false
      → child_of node segment ≡ some child
      → Reaches segments child leaf
      → Reaches (segment ∷ segments) node leaf
  element :
      (segment : Str) (segments : List Str) (node child e leaf : Json)
      → is_marked segment ≡ true
      → child_of node segment ≡ some child
      → In e (elements_of (as_array child))
      → Reaches segments e leaf
      → Reaches (segment ∷ segments) node leaf

In-append_left : (x : Json) (xs ys : List Json) → In x xs → In x (xs ++ ys)
unfolding In
In-append_left x [] ys i = absurd i
In-append_left x (y ∷ xs) ys (inl e) = inl e
In-append_left x (y ∷ xs) ys (inr i) = inr (In-append_left x xs ys i)

In-append_right : (x : Json) (xs ys : List Json) → In x ys → In x (xs ++ ys)
unfolding In
In-append_right x [] ys i = i
In-append_right x (y ∷ xs) ys i = inr (In-append_right x xs ys i)

In-append : (x : Json) (xs ys : List Json) → In x (xs ++ ys) → In x xs ⊎ In x ys
unfolding In
In-append x [] ys i = inr i
In-append x (y ∷ xs) ys (inl e) = inl (inl e)
In-append x (y ∷ xs) ys (inr i) = elim (In-append x xs ys i) [ inl a ↦ inl (inr a) | inr b ↦ inr b ]

In-collect :
    (f : Json → List Json) (x e : Json) (es : List Json)
    → In e es
    → In x (f e)
    → In x (collect f es)
unfolding In collect
In-collect f x e [] i j = absurd i
In-collect f x e (d ∷ es) (inl same) j =
    In-append_left x (f d) (collect f es) (subst (λ y. In x (f y)) (sym same) j)
In-collect f x e (d ∷ es) (inr i) j =
    In-append_right x (f d) (collect f es) (In-collect f x e es i j)

collect-In :
    (f : Json → List Json) (x : Json) (es : List Json)
    → In x (collect f es)
    → (e : Json) × (In e es × In x (f e))
unfolding In collect
collect-In f x [] i = absurd i
collect-In f x (d ∷ es) i = elim (In-append x (f d) (collect f es) i) [
  | inl j ↦ (d, (inl refl, j))
  | inr j ↦ let (e, (a, b)) = collect-In f x es j in (e, (inr a, b))
]

walk_complete :
    (segments : List Str) (node leaf : Json)
    → Reaches segments node leaf
    → In leaf (walk segments node)
unfolding walk In
walk_complete [] node leaf (here n) = inl refl
walk_complete (s ∷ ss) node leaf (field _ _ _ child _ plain found r) =
    rw (plain, found) (walk_complete ss child leaf r)
walk_complete (s ∷ ss) node leaf (element _ _ _ child e _ marked found i r) =
    rw (marked, found)
      (In-collect (λ n. walk ss n) leaf e (elements_of (as_array child)) i
        (walk_complete ss e leaf r))

walk_sound :
    (segments : List Str) (node leaf : Json)
    → In leaf (walk segments node)
    → Reaches segments node leaf
unfolding walk In
walk_sound [] node leaf (inl e) = subst (Reaches [] node) e (here node)
walk_sound [] node leaf (inr i) = absurd i
walk_sound (s ∷ ss) node leaf i = elim (Option-cases (child_of node s)) [
  | inl e ↦ absurd (rw e at i)
  | inr (child, e) ↦ elim (Bool-cases (is_marked s)) [
    | inl marked ↦
        let (x, (a, b)) =
          collect-In (λ n. walk ss n) leaf (elements_of (as_array child)) (rw (e, marked) at i) in
        element s ss node child x leaf marked e a (walk_sound ss x leaf b)
    | inr plain ↦ field s ss node child leaf plain e (walk_sound ss child leaf (rw (e, plain) at i))
  ]
]

-- The walk finds exactly the leaves that the path reaches: through a field of an object for a plain
-- segment, and through every element of an array for a marked one.
pub walk_iff :
    (segments : List Str) (node leaf : Json)
    → In leaf (walk segments node) ↔ Reaches segments node leaf
walk_iff segments node leaf = (walk_sound segments node leaf, walk_complete segments node leaf)
