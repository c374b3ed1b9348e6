-- ===== src/Stashing/Kept.antt =====
-- The router keeps count of its messages: none is lost and none is doubled.
use indy_plenum.Prelude.{
  ◌+◌, ◌≡◌, ◌⊎◌, refl, sym, ◌∙◌, ap, Bool, Option, some, List, [], ◌∷◌, ℤ, String, arith, inl, inr,
  Option-cases,
}
use indy_plenum.Stashing.{
  int_eq, Stash, unsorted_stash, sorted_stash, stashed, with_stashed, Router, Handler, react,
  process,
}
use indy_plenum.Stashing.Weight.{one_if, weight, weight-react}

pub List-cases : {M : Type 0} (xs : List M) → (xs ≡ []) ⊎ ((m : M) × (ms : List M) × (xs ≡ m ∷ ms))
List-cases [] = inl refl
List-cases (x ∷ xs) = inr (x, xs, refl)

pub stashed-with_stashed :
    {M : Type 0} (ms : List M) (q : Stash M) → stashed (with_stashed ms q) ≡ ms
stashed-with_stashed ms (unsorted_stash limit xs) = refl
stashed-with_stashed ms (sorted_stash limit before xs) = refl

module _ {M : Type 0} (p : M → Bool) where
  module _ {S : Type 0} where
    -- A handler that returns has kept the count, whatever it did with the router.
    abbrev pub Keeps : Handler M S → Type 0
    Keeps handler =
        (m : M) (r : Router M S) (answer : Option (ℤ × String)) (r' : Router M S)
        → handler m r ≡ some (answer, r')
        → weight p r' ≡ weight p r

    -- `_process` accounts for one message more.
    pub weight-process :
        (handler : Handler M S) (m : M) (r : Router M S) (done : Bool) (r' : Router M S)
        → Keeps handler
        → process handler m r ≡ some (done, r')
        → weight p r' ≡ weight p r + one_if (p m)
    unfolding process
    weight-process handler m r done r' keeps e = elim (Option-cases (handler m r)) [
      | inl raised ↦ absurd (cc (rw (raised, process) at e))
      | inr ((answer, r1), ran) ↦
          let same : react answer m r1 ≡ (done, r') = cc (rw (ran, process) at e) in
          ap (λ (x : Bool × Router M S). weight p x.1) (sym same)
          ∙ omega (arith, weight-react p answer m r1, keeps m r answer r1 ran)
    ]
