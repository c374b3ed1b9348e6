-- ===== src/Primaries/RoundRobin.antt =====
-- The primaries of all instances are the nodes from the master's primary on.
use indy_plenum.Prelude.{
  ℕ, zero, suc, ◌+◌, ◌-◌, ◌/◌, ◌≤◌, ◌<◌, String, List, [], ◌∷◌, ◌++◌, Option, some, true, false,
  ltb, ◌≡◌, refl, sym, ◌∙◌, ap, arith, inl, inr, Bool-cases, ◌=?◌, string_eq, length, length-append,
  get_elem?, In, Distinct,
}
use indy_plenum.Primaries.{at, round_robin, select_master_primary, select_primaries}
use indy_plenum.Primaries.Cycle.{at-some, at_unique}

-- The nodes in the order of the list, around its end, from the position `v` on.
abbrev pub IsCycle : ℕ → List String → List String → Type 0
IsCycle v validators nodes = (j : ℕ) → j < length nodes → get_elem? nodes j ≡ at validators (v + j)

get-append :
    (xs : List String) (b : String) (j : ℕ)
    → j < length xs
    → get_elem? (xs ++ b ∷ []) j ≡ get_elem? xs j
get-append [] b j h = absurd (omega arith)
get-append (x ∷ xs) b zero h = refl
get-append (x ∷ xs) b (suc j) h = get-append xs b j (omega arith)

get-append_last : (xs : List String) (b : String) → get_elem? (xs ++ b ∷ []) (length xs) ≡ some b
get-append_last [] b = refl
get-append_last (x ∷ xs) b = get-append_last xs b

IsCycle-append :
    (v : ℕ) (validators xs : List String) (b : String)
    → IsCycle v validators xs
    → at validators (v + length xs) ≡ some b
    → IsCycle v validators (xs ++ b ∷ [])
IsCycle-append v validators xs b h e j l = elim (Bool-cases (ltb j (length xs))) [
  | inl t ↦ get-append xs b j (ground arith) ∙ h j (ground arith)
  | inr t ↦
      let last : j ≡ length xs = ground (arith, length-append xs (b ∷ [])) in
      rw last (get-append_last xs b ∙ sym e)
]

next_round :
    (rounds v : ℕ) (validators : List String) (count : ℕ) (master b : String) (ps : List String)
    (out : Option (List String))
    → ltb (length ps) count ≡ true
    → at validators (v + (length ps + 1)) ≡ some b
    → (b =? master) ≡ false
    → round_robin rounds v validators count master (length ps + 1 + 1) (ps ++ b ∷ []) ≡ out
    → round_robin (suc rounds) v validators count master (length ps + 1) ps ≡ out
unfolding round_robin
next_round rounds v validators count master b ps out t e other h = rw (t, e, other) h

round_robin-IsCycle :
    (rounds v : ℕ) (validators : List String) (count : ℕ) (master : String) (ps : List String)
    → Distinct validators
    → count < length validators
    → length ps ≤ count
    → count ≤ rounds + length ps
    → IsCycle v validators (master ∷ ps)
    → (qs : List String) × (round_robin rounds v validators count master (length ps + 1) ps
        ≡ some qs)
      × (length qs ≡ count)
      × IsCycle v validators (master ∷ qs)
unfolding round_robin
round_robin-IsCycle zero v validators count master ps d few some_left enough cycle =
    let full : ltb (length ps) count ≡ false = ground arith in
    (ps, rw full refl, omega arith, cycle)
round_robin-IsCycle (suc rounds) v validators count master ps d few some_left enough cycle =
    elim (Bool-cases (ltb (length ps) count)) [
      | inr t ↦ (ps, rw t refl, ground arith, cycle)
      | inl t ↦
          let below : length ps < count = ground arith in
          let (b, e) = at-some validators (v + (length ps + 1)) (omega arith) in
          let m : at validators (v + 0) ≡ some master = sym (cycle 0 (omega arith)) in
          let other : (b =? master) ≡ false = elim (Bool-cases (b =? master)) [
            | inr u ↦ u
            | inl u ↦
                let same : b ≡ master = (string_eq.beq_iff b master).0 u in
                let e' : at validators (v + (length ps + 1)) ≡ some master = rw same at e in
                absurd (
                  omega (
                    arith,
                    at_unique validators v (length ps + 1) 0 master d (omega arith) (omega arith) e'
                        m,
                  ))
          ] in
          let longer : length (ps ++ b ∷ []) ≡ length ps + 1 = length-append ps (b ∷ []) in
          let (qs, found, long, round) =
            round_robin-IsCycle rounds v validators count master (ps ++ b ∷ []) d few (omega arith)
              (omega arith)
              (IsCycle-append v validators (master ∷ ps) b cycle
                (ap (at validators) (omega arith) ∙ e)) in
          (
            qs,
            next_round rounds v validators count master b ps (some qs) t e other (
                ap (λ i. round_robin rounds v validators count master (i + 1) (ps ++ b ∷ []))
                  (sym longer)
                ∙ found),
            long,
            round,
          )
    ]

get-In :
    (xs : List String) (a : String)
    → In a xs
    → (j : ℕ) × (j < length xs) × (get_elem? xs j ≡ some a)
get-In [] a m = absurd m
get-In (x ∷ xs) a (inl e) = (0, omega arith, ap some (sym e))
get-In (x ∷ xs) a (inr m) = let (j, l, e) = get-In xs a m in (suc j, omega arith, e)

IsCycle-Distinct :
    (v : ℕ) (validators xs : List String)
    → Distinct validators
    → length xs ≤ length validators
    → IsCycle v validators xs
    → Distinct xs
IsCycle-Distinct v validators [] d l h = tt
IsCycle-Distinct v validators (x ∷ xs) d l h = (
  λ m.
      let (j, s, e) = get-In xs x m in
      let first : at validators (v + 0) ≡ some x = sym (h 0 (omega arith)) in
      let again : at validators (v + suc j) ≡ some x = sym (h (suc j) (omega arith)) ∙ e in
      absurd (
        omega
          (arith, at_unique validators v 0 (suc j) x d (omega arith) (omega arith) first again)),
  IsCycle-Distinct (v + 1) validators xs d (omega arith)
      (λ j s. h (suc j) (omega arith) ∙ ap (at validators) (omega arith)),
)

f_lt : (n : ℕ) → 0 < n → (n - 1) / 3 < n
f_lt n h = ground arith

selected :
    (rounds : ℕ) (validators : List String) (view_no : ℕ) (master : String) (qs : List String)
    → at validators view_no ≡ some master
    → round_robin rounds view_no validators ((length validators - 1) / 3) master 1 [] ≡ some qs
    → select_primaries rounds validators view_no ≡ some (master ∷ qs)
unfolding select_primaries select_master_primary
selected rounds validators view_no master qs e f =
    rw (e, f, select_primaries, select_master_primary) refl

-- In a pool of distinct nodes the selection ends after at most f rounds of its loop. It gives the f + 1
-- primaries of the instances: the node at the view number, around the list, for the master, the ones
-- that follow it for the backups, and none of them twice.
pub select_primaries-IsCycle :
    (rounds : ℕ) (validators : List String) (view_no : ℕ)
    → Distinct validators
    → 0 < length validators
    → (length validators - 1) / 3 ≤ rounds
    → (primaries : List String) × (select_primaries rounds validators view_no ≡ some primaries)
      × (length primaries ≡ (length validators - 1) / 3 + 1)
      × IsCycle view_no validators primaries
      × Distinct primaries
select_primaries-IsCycle rounds validators view_no d h enough =
    let (master, e) = at-some validators view_no h in
    let few = f_lt (length validators) h in
    let start : IsCycle view_no validators (master ∷ []) = λ j l.
      let first : j ≡ 0 = omega (arith, l) in rw first (sym e ∙ ap (at validators) (omega arith)) in
    let (qs, found, long, cycle) =
      round_robin-IsCycle rounds view_no validators ((length validators - 1) / 3) master [] d few
        (omega arith) (omega arith) start in
    (
      master ∷ qs,
      selected rounds validators view_no master qs e found,
      omega arith,
      cycle,
      IsCycle-Distinct view_no validators (master ∷ qs) d (omega arith) cycle,
    )
