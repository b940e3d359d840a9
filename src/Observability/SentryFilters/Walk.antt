-- ===== src/Observability/SentryFilters/Walk.antt =====
-- The walk along an exception's causes ends, whatever cycles they form.
use mathlib.Core.Option
use netix_backend.Prelude.{
  ℕ, zero, suc, ◌≤◌, ◌<◌, ◌==◌, ◌≡◌, refl, false, List, [], ◌∷◌, Option, none, some, String,
  if◌then◌else◌, get_elem?, length, arith, Bool-cases, Option-cases, inl, inr, subst,
}
use netix_backend.Observability.SentryFilters.Candidates.{
  Error, Heap, seen_before, behind, line_of, chain_from, exception_chain_text,
}

-- How many of the first `n` exceptions have not been seen.
abbrev unseen : ℕ → List ℕ → ℕ
unseen zero seen = 0
unseen (suc n) seen = if seen_before seen n then unseen n seen else suc (unseen n seen)

unseen-shrinks : (n id : ℕ) (seen : List ℕ) → unseen n (id ∷ seen) ≤ unseen n seen
unseen-shrinks zero id seen = omega arith
unseen-shrinks (suc n) id seen = ground (arith, unseen-shrinks n id seen)

unseen-drops :
    (n id : ℕ) (seen : List ℕ)
    → id < n
    → seen_before seen id ≡ false
    → unseen n (id ∷ seen) < unseen n seen
unseen-drops zero id seen lt h = absurd (omega arith)
unseen-drops (suc n) id seen lt h = elim (Bool-cases (id == n)) [
  | inl same ↦
      let e : id ≡ n = ground arith in
      let fresh : seen_before seen n ≡ false = subst (λ i. seen_before seen i ≡ false) e h in
      rw same (rw fresh (omega (arith, unseen-shrinks n id seen)))
  | inr other ↦
      let below : id < n = ground arith in
      let fewer = unseen-drops n id seen below h in
      elim (Bool-cases (seen_before seen n)) [
        | inl old ↦ rw other (rw old fewer)
        | inr new ↦ rw other (rw new (omega (arith, fewer)))
      ]
]

get_elem?-bound : (heap : Heap) (i : ℕ) (e : Error) → get_elem? heap i ≡ some e → i < length heap
get_elem?-bound [] i e h = absurd (cc)
get_elem?-bound (x ∷ heap) zero e h = omega arith
get_elem?-bound (x ∷ heap) (suc i) e h = omega (arith, get_elem?-bound heap i e h)

module _ (heap : Heap) where
  abbrev Ends : Option (List String) → Type 0
  Ends o = (lines : List String) × (o ≡ some lines)

  cons-Ends :
      (line : String) (o : Option (List String))
      → Ends o
      → Ends (Option.map (λ lines. line ∷ lines) o)
  cons-Ends line o (lines, e) = (line ∷ lines, rw e refl)

  chain_from-Ends :
      (fuel : ℕ) (seen : List ℕ) (current : Option ℕ)
      → unseen (length heap) seen < fuel
      → Ends (chain_from heap fuel seen current)
  unfolding chain_from
  chain_from-Ends zero seen current h = absurd (omega arith)
  chain_from-Ends (suc fuel) seen none h = ([], refl)
  chain_from-Ends (suc fuel) seen (some id) h = elim (Option-cases (get_elem? heap id)) [
    | inl gone ↦ rw (gone, chain_from) ([], refl)
    | inr (error, e) ↦ elim (Bool-cases (seen_before seen id)) [
      | inl old ↦ rw (e, chain_from) (rw old ([], refl))
      | inr new ↦
          let drops = unseen-drops (length heap) id seen (get_elem?-bound heap id error e) new in
          rw (e, chain_from)
            (rw new (
              cons-Ends (line_of error) (chain_from heap fuel (id ∷ seen) (behind error))
                (chain_from-Ends fuel (id ∷ seen) (behind error) (omega (arith, drops)))))
    ]
  ]

unseen-le : (n : ℕ) (seen : List ℕ) → unseen n seen ≤ n
unseen-le zero seen = omega arith
unseen-le (suc n) seen = ground (arith, unseen-le n seen)

-- The texts of an exception and of those behind it are found, also where their causes form a cycle:
-- the fuel is enough.
pub exception_chain_text_ends :
    (heap : Heap) (exc : Option ℕ)
    → (lines : List String) × (exception_chain_text heap exc ≡ some lines)
unfolding exception_chain_text
exception_chain_text_ends heap exc =
    chain_from-Ends heap (suc (length heap)) [] exc (omega (arith, unseen-le (length heap) []))
