-- ===== src/Pipeline/Deduped.antt =====
-- dedupe keeps the first record of each key: interpreter.go.
use network_adapter.Prelude.{
  is_empty, ltb, ◌≡◌, refl, ap, inl, inr, true, List, [], ◌∷◌, any, arith, if◌then◌else◌,
  Bool-cases, Str, str_eq, str_eq_iff, ◌∙◌, sym,
}
use network_adapter.Pipeline.Fault.{done, Ensures-if, Ensures-bind, Ensures-done}
use network_adapter.Pipeline.Spec.{Step}
use network_adapter.Pipeline.Primitives.{Scope, current_collection, dedupe}
use network_adapter.Pipeline.Value.{Engine, Record}
use network_adapter.Pipeline.Rows.{key_of, first_rows, count_keyless}

module _ (engine : Engine) (key : Str) where
  -- The records whose key is not `k`.
  abbrev pub without_key : Str → List Record → List Record
  without_key k [] = []
  without_key k (row ∷ rows) =
      if str_eq (key_of engine key row) k then without_key k rows else row ∷ without_key k rows

  -- Each record, without those behind it that have its key.
  abbrev pub firsts : List Record → List Record
  firsts [] = []
  firsts (row ∷ rows) = row ∷ without_key (key_of engine key row) (firsts rows)

  -- The records whose key is not among `seen`.
  abbrev unseen : List Str → List Record → List Record
  unseen seen [] = []
  unseen seen (row ∷ rows) =
      if any (str_eq (key_of engine key row)) seen then unseen seen rows else row ∷ unseen seen rows

  any-member :
      (k j : Str) (seen : List Str) → str_eq j k ≡ true → any (str_eq j) seen ≡ any (str_eq k) seen
  any-member k j seen h = ap (λ t. any (str_eq t) seen) ((str_eq_iff j k).0 h)

  unseen-without_key :
      (k : Str) (seen : List Str) (rows : List Record)
      → any (str_eq k) seen ≡ true
      → unseen seen (without_key k rows) ≡ unseen seen rows
  unseen-without_key k seen [] h = refl
  unseen-without_key k seen (row ∷ rows) h =
      ground (arith, any-member k (key_of engine key row) seen, unseen-without_key k seen rows h)

  unseen-cons :
      (k : Str) (seen : List Str) (rows : List Record)
      → unseen seen (without_key k rows) ≡ unseen (k ∷ seen) rows
  unseen-cons k seen [] = refl
  unseen-cons k seen (row ∷ rows) = ground (arith, unseen-cons k seen rows)

  unseen-nil : (rows : List Record) → unseen [] rows ≡ rows
  unseen-nil [] = refl
  unseen-nil (row ∷ rows) = ap (λ t. row ∷ t) (unseen-nil rows)

  first_rows-unseen :
      (seen : List Str) (rows : List Record)
      → first_rows engine key seen rows ≡ unseen seen (firsts rows)
  unfolding first_rows
  first_rows-unseen seen [] = refl
  first_rows-unseen seen (row ∷ rows) =
      let k = key_of engine key row in
      elim (Bool-cases (any (str_eq k) seen)) [
        | inl repeat ↦
            rw repeat
              (first_rows-unseen seen rows ∙ sym (unseen-without_key k seen (firsts rows) repeat))
        | inr new ↦ rw new (
            ap (λ t. row ∷ t)
              (first_rows-unseen (k ∷ seen) rows ∙ sym (unseen-cons k seen (firsts rows))))
      ]

  -- The loop of dedupe keeps, of the records with one key, the first, and keeps the order.
  pub first_rows-firsts : (rows : List Record) → first_rows engine key [] rows ≡ firsts rows
  first_rows-firsts rows = first_rows-unseen [] rows ∙ unseen-nil (firsts rows)

-- What dedupe gives.
pub record IsDeduped (engine : Engine) (s : Scope) (step : Step) (out : List Record) : Type 0 where
  pub rows : List Record
  pub read : current_collection engine s step ≡ done rows
  pub keyed : count_keyless engine step.args.key rows ≡ 0
  pub kept : out ≡ firsts engine step.args.key rows

-- When dedupe returns records, each record of its collection has a usable key, and what it returns is,
-- of the records with one key, the first, in the order of the collection.
pub dedupe-IsDeduped :
    (engine : Engine) (s : Scope) (step : Step) (out : List Record)
    → dedupe engine s step ≡ done out
    → IsDeduped engine s step out
unfolding dedupe
dedupe-IsDeduped engine s step out h =
    let P = IsDeduped engine s step in
    Ensures-done P (dedupe engine s step)
      (Ensures-if P (is_empty step.args.key) _ _ (λ p. tt)
        λ p. Ensures-bind P (current_collection engine s step) _ λ rows q.
          Ensures-if P (ltb 0 (count_keyless engine step.args.key rows)) _ _ (λ r. tt)
            λ r. record {
              rows = rows;
              read = q;
              keyed = ground arith;
              kept = first_rows-firsts engine step.args.key rows;
            })
      h
