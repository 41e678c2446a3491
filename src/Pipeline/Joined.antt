-- ===== src/Pipeline/Joined.antt =====
-- join carries fields from the last right row with the key: interpreter.go.
use network_adapter.Prelude.{
  is_empty, not, ◌&&◌, ◌≡◌, refl, ap, ◌∙◌, Bool, false, Option, none, some, List, [], ◌∷◌, map,
  arith, if◌then◌else◌, Str, str_eq, lookup, lookup-insert, sym,
}
use network_adapter.Json.{Json}
use network_adapter.Text.{str}
use network_adapter.Pipeline.Fault.{
  done, within, within-eq-done, Ensures-if, Ensures-bind, Ensures-done,
}
use network_adapter.Pipeline.Spec.{Step}
use network_adapter.Pipeline.Primitives.{Scope, collection, join}
use network_adapter.Pipeline.Value.{Engine, Record, render_scalar}
use network_adapter.Pipeline.Rows.{index_rows, join_row, join_rows, merged_with, with_row, match_of}

module _ (engine : Engine) (on : Str) where
  abbrev has_text : Str → Option Json → Bool
  has_text k none = false
  has_text k (some v) = str_eq (render_scalar engine v) k

  abbrev later : Option Record → Option Record → Option Record
  later (some row) other = some row
  later none other = other

  -- The last row whose key reads as `k`.
  abbrev pub last_row : Str → List Record → Option Record
  last_row k [] = none
  last_row k (row ∷ rows) =
      later (last_row k rows) (if has_text k (lookup on row) then some row else none)

  abbrev pub match_in : List Record → Option Json → Option Record
  match_in right none = none
  match_in right (some v) = last_row (render_scalar engine v) right

  later_assoc : (a b c : Option Record) → later (later a b) c ≡ later a (later b c)
  later_assoc none b c = refl
  later_assoc (some a) b c = refl

  later-none : (a : Option Record) → later a none ≡ a
  later-none none = refl
  later-none (some a) = refl

  lookup-with_row :
      (k : Str) (o : Option Json) (row : Record) (index : List (Str × Record))
      → lookup k (with_row engine o row index)
        ≡ later (if has_text k o then some row else none) (lookup k index)
  lookup-with_row k none row index = refl
  lookup-with_row k (some v) row index =
      ground (arith, lookup-insert (render_scalar engine v) k row index)

  lookup-index_rows :
      (k : Str) (rows : List Record) (index : List (Str × Record))
      → lookup k (index_rows engine on index rows) ≡ later (last_row k rows) (lookup k index)
  unfolding index_rows
  lookup-index_rows k [] index = refl
  lookup-index_rows k (row ∷ rows) index =
      lookup-index_rows k rows (with_row engine (lookup on row) row index)
      ∙ ap (later (last_row k rows)) (lookup-with_row k (lookup on row) row index)
      ∙ sym (
          later_assoc (last_row k rows) (if has_text k (lookup on row) then some row else none)
            (lookup k index))

  match_of-match_in :
      (right : List Record) (o : Option Json)
      → match_of engine (index_rows engine on [] right) o ≡ match_in right o
  unfolding lookup
  match_of-match_in right none = refl
  match_of-match_in right (some v) =
      lookup-index_rows (render_scalar engine v) right []
      ∙ later-none (last_row (render_scalar engine v) right)

  -- A join keeps every left row in its place, and carries the named fields over from the last right
  -- row whose key has the same text, where there is one.
  pub join_rows-last_row :
      (fields : List Str) (left right : List Record)
      → join_rows engine on fields left right
        ≡ map (λ row. merged_with fields (match_in right (lookup on row)) row) left
  unfolding join_rows join_row
  join_rows-last_row fields [] right = refl
  join_rows-last_row fields (row ∷ left) right = rw (match_of-match_in right (lookup on row)) (
      ap (λ t. merged_with fields (match_in right (lookup on row)) row ∷ t)
        (join_rows-last_row fields left right))

-- What join gives, of two collections.
pub record IsJoined (engine : Engine) (s : Scope) (step : Step) (out : List Record) : Type 0 where
  pub left : List Record
  pub right : List Record
  pub read_left : collection engine s.own step.args.left ≡ done left
  pub read_right : collection engine s.own step.args.right ≡ done right
  pub rows :
      out
      ≡ map
          (λ row.
            merged_with step.args.carry
              (match_in engine step.args.on right (lookup step.args.on row))
              row)
          left

-- When join returns records, they are the left rows, each in its place, with the carried fields of the
-- last right row whose key has the same text, where there is one.
pub join-IsJoined :
    (engine : Engine) (s : Scope) (step : Step) (out : List Record)
    → join engine s step ≡ done out
    → IsJoined engine s step out
unfolding join
join-IsJoined engine s step out h =
    let P = IsJoined engine s step in
    Ensures-done P (join engine s step)
      (Ensures-if P (not (is_empty step.args.type) && not (str_eq step.args.type (str "left"))) _ _
        (λ p. tt)
        λ p.
          Ensures-if P (is_empty step.args.on) _ _ (λ q. tt)
            λ q.
              Ensures-bind P
                (within (str "join left: " ∷ []) (collection engine s.own step.args.left)) _
                λ left l.
                  Ensures-bind P
                    (within (str "join right: " ∷ []) (collection engine s.own step.args.right)) _
                    λ right r. record {
                      left = left;
                      right = right;
                      read_left =
                          within-eq-done (str "join left: " ∷ [])
                            (collection engine s.own step.args.left) l;
                      read_right =
                          within-eq-done (str "join right: " ∷ [])
                            (collection engine s.own step.args.right) r;
                      rows = join_rows-last_row engine step.args.on step.args.carry left right;
                    })
      h
