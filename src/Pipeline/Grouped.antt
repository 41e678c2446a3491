-- ===== src/Pipeline/Grouped.antt =====
-- The groups of catalogGroup hold every record under its key: run.go.
use network_adapter.Prelude.{
  ℕ, suc, ◌+◌, ◌≡◌, refl, sym, ◌∙◌, subst, inl, inr, Bool, true, false, Option, none, some, List,
  [], ◌∷◌, ◌++◌, is_some, get_or, arith, if◌then◌else◌, Bool-cases, Str, str_eq, str_eq_iff, lookup,
  lookup-insert, reverse, append-nil, append_assoc, reverse-append, Option-cases,
}
use network_adapter.Json.{Json}
use network_adapter.Pipeline.Fault.{done, Ensures, Ensures-bind, Ensures-done}
use network_adapter.Pipeline.Value.{Engine, Record, render_scalar}
use network_adapter.Text.{str_lt}
use network_adapter.Pipeline.Order.{insert_sorted, insert_all, sort_stable, sort_strings}
use network_adapter.Pipeline.Catalog.{Groups, add_member, group_from, catalog_group}

-- How often a text stands in a list.
abbrev pub count_of : Str → List Str → ℕ
count_of k [] = 0
count_of k (x ∷ xs) = (if str_eq x k then 1 else 0) + count_of k xs

count_of-append :
    (k : Str) (xs ys : List Str) → count_of k (xs ++ ys) ≡ count_of k xs + count_of k ys
count_of-append k [] ys = omega arith
count_of-append k (x ∷ xs) ys = omega (arith, count_of-append k xs ys)

module _ (less : Str → Str → Bool) (k : Str) where
  count_of-insert_sorted :
      (x : Str) (ys : List Str) → count_of k (insert_sorted less x ys) ≡ count_of k (x ∷ ys)
  unfolding insert_sorted
  count_of-insert_sorted x [] = refl
  count_of-insert_sorted x (y ∷ ys) = ground (arith, count_of-insert_sorted x ys)

  count_of-insert_all :
      (xs ys : List Str) → count_of k (insert_all less xs ys) ≡ count_of k xs + count_of k ys
  unfolding insert_all
  count_of-insert_all [] ys = omega arith
  count_of-insert_all (x ∷ xs) ys =
      omega (arith, count_of-insert_all xs (insert_sorted less x ys), count_of-insert_sorted x ys)

  count_of-reverse : (xs : List Str) → count_of k (reverse xs) ≡ count_of k xs
  count_of-reverse [] = refl
  count_of-reverse (x ∷ xs) =
      rw (reverse-append (x ∷ []) xs)
        (omega (arith, count_of-append k (reverse xs) (x ∷ []), count_of-reverse xs))

  pub count_of-sort_stable : (xs : List Str) → count_of k (sort_stable less xs) ≡ count_of k xs
  unfolding sort_stable
  count_of-sort_stable xs =
      omega (arith, count_of-reverse (insert_all less xs []), count_of-insert_all xs [])

module _ (engine : Engine) (by : Str) where
  abbrev pub has_key : Str → Option Json → Bool
  has_key key none = false
  has_key key (some v) = str_eq (render_scalar engine v) key

  -- The records of a key, in their order.
  abbrev pub with_key : Str → List Record → List Record
  with_key key [] = []
  with_key key (row ∷ rows) =
      if has_key key (lookup by row) then row ∷ with_key key rows else with_key key rows

  pub with_key-append :
      (key : Str) (xs ys : List Record)
      → with_key key (xs ++ ys) ≡ with_key key xs ++ with_key key ys
  with_key-append key [] ys = refl
  with_key-append key (x ∷ xs) ys = ground (arith, with_key-append key xs ys)

  abbrev pub unless_empty : List Record → Option (List Record)
  unless_empty [] = none
  unless_empty (row ∷ rows) = some (row ∷ rows)

  abbrev pub once : List Record → ℕ
  once [] = 0
  once (row ∷ rows) = 1

  -- Every key has the records with it, in their order, and is listed once if there are any.
  pub record IsGrouped (rows : List Record) (g : Groups) : Type 0 where
    pub members : (key : Str) → lookup key g.members ≡ unless_empty (with_key key rows)
    pub keys : (key : Str) → count_of key g.keys ≡ once (with_key key rows)

  abbrev pub Keyed : Record → Type 0
  Keyed row = (v : Json) × (lookup by row ≡ some v)

  with_key_last :
      (v : Json) (row : Record) (rows : List Record) (key : Str)
      → lookup by row ≡ some v
      → with_key key (rows ++ row ∷ [])
        ≡ with_key key rows ++ (if str_eq (render_scalar engine v) key then row ∷ [] else [])
  with_key_last v row rows key h = rw (with_key-append key rows (row ∷ []), h) refl

  grown :
      (row : Record) (rows : List Record)
      → some (get_or (unless_empty rows) [] ++ row ∷ []) ≡ unless_empty (rows ++ row ∷ [])
  grown row [] = refl
  grown row (x ∷ rows) = refl

  once-grown : (row : Record) (rows : List Record) → once (rows ++ row ∷ []) ≡ 1
  once-grown row [] = refl
  once-grown row (x ∷ rows) = refl

  -- Listing a key that is new.
  count_added :
      (k : Str) (o : Option (List Record)) (xs : List Record) (keys : List Str)
      → o ≡ unless_empty xs
      → count_of k keys ≡ once xs
      → (key : Str)
      → count_of key (if is_some o then keys else keys ++ k ∷ [])
        ≡ (if str_eq k key then 1 else count_of key keys)
  count_added k o xs keys e c key = elim (Bool-cases (str_eq k key)) [
    | inl same ↦
        let p : k ≡ key = (str_eq_iff k key).0 same in
        let c' : count_of key keys ≡ once xs = subst (λ t. count_of t keys ≡ once xs) p c in
        rw (same, e) (added xs c' same)
    | inr other ↦ rw (other, e) (kept xs other)
  ]
    where
      added :
          (xs : List Record)
          → count_of key keys ≡ once xs
          → str_eq k key ≡ true
          → count_of key (if is_some (unless_empty xs) then keys else keys ++ k ∷ []) ≡ 1
      added [] c s = ground (arith, count_of-append key keys (k ∷ []), c, s)
      added (x ∷ xs) c s = c

      kept :
          (xs : List Record)
          → str_eq k key ≡ false
          → count_of key (if is_some (unless_empty xs) then keys else keys ++ k ∷ [])
            ≡ count_of key keys
      kept [] s = ground (arith, count_of-append key keys (k ∷ []), s)
      kept (x ∷ xs) s = refl

  -- A record more.
  module _ (v : Json) (row : Record) (rows : List Record) (g : Groups) (h : lookup by row ≡ some v)
      (d : IsGrouped rows g) where
    abbrev new_key : Str
    new_key = render_scalar engine v

    abbrev new_groups : Groups
    new_groups = add_member engine new_key row g

    members_after :
        (key : Str) → lookup key new_groups.members ≡ unless_empty (with_key key (rows ++ row ∷ []))
    unfolding add_member
    members_after key =
        rw
          (
            lookup-insert new_key key (get_or (lookup new_key g.members) [] ++ row ∷ []) g.members,
            with_key_last v row rows key h,
          )
          elim (Bool-cases (str_eq new_key key)) [
            | inl same ↦ rw same (
                subst
                  (λ k.
                    some (get_or (lookup new_key g.members) [] ++ row ∷ [])
                    ≡ unless_empty (with_key k rows ++ row ∷ []))
                  ((str_eq_iff new_key key).0 same)
                  (rw (d.members new_key) (grown row (with_key new_key rows))))
            | inr other ↦ rw (other, append-nil (with_key key rows)) (d.members key)
          ]

    keys_after : (key : Str) → count_of key new_groups.keys ≡ once (with_key key (rows ++ row ∷ []))
    unfolding add_member
    keys_after key =
        rw
          (
            with_key_last v row rows key h,
            count_added new_key (lookup new_key g.members) (with_key new_key rows) g.keys
                (d.members new_key) (d.keys new_key) key,
          )
          elim (Bool-cases (str_eq new_key key)) [
            | inl same ↦ rw same (sym (once-grown row (with_key key rows)))
            | inr other ↦ rw (other, append-nil (with_key key rows)) (d.keys key)
          ]

    add_member-IsGrouped : IsGrouped (rows ++ row ∷ []) new_groups
    add_member-IsGrouped = record { members = members_after; keys = keys_after }

  group_from-IsGrouped :
      (more rows : List Record) (i : ℕ) (g : Groups)
      → IsGrouped rows g
      → Ensures (IsGrouped (rows ++ more)) (group_from engine i by g more)
  unfolding group_from
  group_from-IsGrouped [] rows i g d = subst (λ t. IsGrouped t g) (sym (append-nil rows)) d
  group_from-IsGrouped (row ∷ more) rows i g d = elim (Option-cases (lookup by row)) [
    | inl missing ↦ rw (Ensures, missing) tt
    | inr (v, found) ↦
        rw (Ensures, found)
          (subst
            (λ t. Ensures (IsGrouped t) (
              group_from engine (suc i) by (add_member engine (render_scalar engine v) row g) more))
            (append_assoc rows (row ∷ []) more)
            (group_from-IsGrouped more (rows ++ row ∷ []) (suc i)
              (add_member engine (render_scalar engine v) row g)
              (add_member-IsGrouped v row rows g found d)))
  ]

  -- The groups that catalogGroup returns hold, under each key, the records with it in their order,
  -- and list each key that some record has once, and no other.
  pub catalog_group-IsGrouped :
      (rows : List Record) (g : Groups) → catalog_group engine by rows ≡ done g → IsGrouped rows g
  unfolding catalog_group sort_strings
  catalog_group-IsGrouped rows g h =
      Ensures-done (IsGrouped rows) (catalog_group engine by rows)
        (Ensures-bind (IsGrouped rows)
          (group_from engine 0 by (record { keys = []; members = [] }) rows) _
          λ g' p.
            let d : IsGrouped rows g' =
              Ensures-done (IsGrouped rows)
                (group_from engine 0 by (record { keys = []; members = [] }) rows)
                (group_from-IsGrouped rows [] 0 (record { keys = []; members = [] })
                  (record { members = λ k. refl; keys = λ k. refl }))
                p in
            record {
              members = d.members;
              keys = λ k. count_of-sort_stable str_lt k g'.keys ∙ d.keys k;
            })
        h
