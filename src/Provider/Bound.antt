-- ===== src/Provider/Bound.antt =====
-- That a binding is the only one that its payload names.
use network_adapter.Prelude.{
  ◌≤◌, ◌≡◌, refl, sym, ap, subst, ◌⊎◌, inl, inr, true, false, List, [], ◌∷◌, ◌++◌, All, is_empty,
  any, ltb, Str, str_eq, str_eq_iff, arith, Bool-cases, if-both_when,
}
use network_adapter.Json.{Json}
use network_adapter.Crawl.Unique.{In, All-map}
use network_adapter.Provider.Paths.{Paths, values_at, count_at}
use network_adapter.Provider.Binding.{
  Binding, Found, append_distinct, distinct_into, distinct, one_binding, binding_in,
}

In-front : (v : Str) (xs ys : List Str) → In v xs → In v (xs ++ ys)
unfolding In
In-front v [] ys i = absurd i
In-front v (x ∷ xs) ys (inl e) = inl e
In-front v (x ∷ xs) ys (inr i) = inr (In-front v xs ys i)

In-last : (v : Str) (xs : List Str) → In v (xs ++ (v ∷ []))
unfolding In
In-last v [] = inl refl
In-last v (x ∷ xs) = inr (In-last v xs)

any-same : (v : Str) (xs : List Str) → any (λ x. str_eq x v) xs ≡ true → In v xs
unfolding In
any-same v [] h = absurd cc
any-same v (x ∷ xs) h = elim (Bool-cases (str_eq x v)) [
  | inl e ↦ inl ((str_eq_iff x v).0 e)
  | inr e ↦ inr (any-same v xs (rw e at h))
]

append_distinct-keeps : (v w : Str) (out : List Str) → In v out → In v (append_distinct out w)
unfolding append_distinct
append_distinct-keeps v w out i =
    if-both_when (In v) (is_empty w) (λ e. i)
      (λ e.
        if-both_when (In v) (any (λ x. str_eq x w) out) (λ f. i) (λ f. In-front v out (w ∷ []) i))

append_distinct-has : (w : Str) (out : List Str) → is_empty w ≡ false → In w (append_distinct out w)
unfolding append_distinct
append_distinct-has w out n =
    if-both_when (In w) (is_empty w) (λ e. absurd cc)
      (λ e.
        if-both_when (In w) (any (λ x. str_eq x w) out) (λ f. any-same w out f)
          (λ f. In-last w out))

distinct_into-keeps : (v : Str) (out vs : List Str) → In v out → In v (distinct_into out vs)
unfolding distinct_into
distinct_into-keeps v out [] i = i
distinct_into-keeps v out (w ∷ vs) i =
    distinct_into-keeps v (append_distinct out w) vs (append_distinct-keeps v w out i)

-- Each value is empty or among the distinct ones.
distinct_into-All : (out vs : List Str) → All (λ v. (v ≡ []) ⊎ In v (distinct_into out vs)) vs
unfolding distinct_into
distinct_into-All out [] = tt
distinct_into-All out (w ∷ vs) =
    (by_emptiness w out vs, distinct_into-All (append_distinct out w) vs)
  where
    by_emptiness :
        (w : Str) (out vs : List Str) → (w ≡ []) ⊎ In w (distinct_into (append_distinct out w) vs)
    by_emptiness [] out vs = inl refl
    by_emptiness (c ∷ w) out vs = inr (
        distinct_into-keeps (c ∷ w) (append_distinct out (c ∷ w)) vs
          (append_distinct-has (c ∷ w) out refl))

-- Every value is the given one, or empty.
abbrev pub Only : Str → List Str → Type 0
Only x vs = All (λ v. (v ≡ []) ⊎ (v ≡ x)) vs

distinct-Only : (vs : List Str) (x : Str) → distinct vs ≡ x ∷ [] → Only x vs
unfolding distinct In
distinct-Only vs x h =
    All-map (λ v. (v ≡ []) ⊎ In v (distinct_into [] vs)) (λ v. (v ≡ []) ⊎ (v ≡ x)) vs single
      (distinct_into-All [] vs)
  where
    the_one : (v : Str) → In v (x ∷ []) → v ≡ x
    the_one v (inl e) = sym e
    the_one v (inr i) = absurd i

    single : (v : Str) → (v ≡ []) ⊎ In v (distinct_into [] vs) → (v ≡ []) ⊎ (v ≡ x)
    single v (inl e) = inl e
    single v (inr i) = inr (the_one v (subst (In v) h i))

one_binding-eq :
    (ps ts : List Str) (b : Binding)
    → one_binding ps ts ≡ Found.bound b
    → (ps ≡ b.participant_id ∷ []) × (ts ≡ b.capability_code ∷ [])
one_binding-eq [] ts b h = cc
one_binding-eq (p ∷ ps) [] b h = cc
one_binding-eq (p ∷ q ∷ ps) (t ∷ ts) b h = cc
one_binding-eq (p ∷ []) (t ∷ u ∷ ts) b h = cc
one_binding-eq (p ∷ []) (t ∷ []) b h =
    let e : record { participant_id = p; capability_code = t } ≡ b = cc in
    (ap (λ (x : Binding). x.participant_id ∷ []) e, ap (λ (x : Binding). x.capability_code ∷ []) e)

-- A payload from which a binding is read has one commitment at most, and names no other provider
-- and no other capability than those of the binding.
pub record IsTheBinding (p : Paths) (payload : Json) (b : Binding) : Type 0 where
  pub one_commitment : count_at payload p.provider_id ≤ 1
  pub provider : Only b.participant_id (values_at payload p.provider_id)
  pub capability : Only b.capability_code (values_at payload p.capability_code)

pub binding_in-IsTheBinding :
    (p : Paths) (payload : Json) (b : Binding)
    → binding_in p payload ≡ Found.bound b
    → IsTheBinding p payload b
unfolding binding_in
binding_in-IsTheBinding p payload b h = elim (Bool-cases (ltb 1 (count_at payload p.provider_id))) [
  | inl e ↦ absurd (let k : _ ≡ Found.bound b = rw e at h in cc)
  | inr e ↦
      let (x, y) =
        one_binding-eq (distinct (values_at payload p.provider_id))
          (distinct (values_at payload p.capability_code)) b (rw e at h) in
      record {
        one_commitment = ground arith;
        provider = distinct-Only (values_at payload p.provider_id) b.participant_id x;
        capability = distinct-Only (values_at payload p.capability_code) b.capability_code y;
      }
]
