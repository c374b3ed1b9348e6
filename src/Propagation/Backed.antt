-- ===== src/Propagation/Backed.antt =====
-- When `req_with_acceptable_quorum` finds a request.
use indy_plenum.Prelude.{
  ℕ, ◌+◌, ◌<◌, String, List, [], ◌∷◌, ◌++◌, Option, none, some, true, false, if◌then◌else◌, ◌≡◌,
  refl, ◌∙◌, ap, subst, arith, inl, inr, Bool-cases, ◌=?◌, =?_refl, string_eq, length,
  length-append, insert, lookup-insert, add, not_contains, count, keys, In, In-append, Distinct,
  ltb,
}
use indy_plenum.Quorums.{Quorum, is_reached}
use indy_plenum.Propagation.{
  Sender, text, bytes, Request, ReqState, senders_of, acceptable, text_only,
  state_with_acceptable_quorum,
}

-- The number of nodes that propagated a request with the digest.
abbrev pub sent : String → List (String × Request) → ℕ
sent digest = count (λ (sender, req). req.digest =? digest)

-- What the loop has seen.
record IsSeen (digests : List (String × List String)) (done : List (String × Request))
    : Type 0 where
  counts : (d : String) → length (senders_of d digests) ≡ sent d done
  from_done : (d s : String) → In s (senders_of d digests) → In s (keys done)

senders_of-insert :
    (d k : String) (froms : List String) (digests : List (String × List String))
    → senders_of d (insert k froms digests) ≡ (if k =? d then froms else senders_of d digests)
senders_of-insert d k froms digests = elim (Bool-cases (k =? d)) [
  | inl t ↦ rw (lookup-insert k d froms digests, senders_of, t)
  | inr t ↦ rw (lookup-insert k d froms digests, senders_of, t)
]

add_fresh : (s : String) (xs : List String) → ¬ In s xs → add s xs ≡ xs ++ s ∷ []
add_fresh s xs n = rw (not_contains s xs n) refl

IsSeen-step :
    (sender : String) (req : Request) (digests : List (String × List String))
    (done : List (String × Request))
    → IsSeen digests done
    → ¬ In sender (keys done)
    → IsSeen
        (insert req.digest (add sender (senders_of req.digest digests)) digests)
        ((sender, req) ∷ done)
IsSeen-step sender req digests done h fresh =
    let k = req.digest in
    let new : add sender (senders_of k digests) ≡ senders_of k digests ++ sender ∷ [] =
      add_fresh sender (senders_of k digests) (λ m. fresh (h.from_done k sender m)) in
    record {
      counts = λ d.
          rw (senders_of-insert d k (add sender (senders_of k digests)) digests)
            (elim (Bool-cases (k =? d)) [
              | inl t ↦
                  let same : k ≡ d = (string_eq.beq_iff k d).0 t in
                  let longer : length (add sender (senders_of k digests))
                      ≡ length (senders_of k digests) + 1 =
                    ap length new ∙ length-append (senders_of k digests) (sender ∷ []) in
                  rw t (omega (arith, longer, h.counts k, ap (λ z. sent z done) same))
              | inr t ↦ rw t (omega (arith, h.counts d))
            ]);
      from_done = λ d s m.
          let m' = rw (senders_of-insert d k (add sender (senders_of k digests)) digests) at m in
          elim (Bool-cases (k =? d)) [
            | inl t ↦
                elim (In-append s (senders_of k digests) (sender ∷ [])
                  (subst (In s) new (rw t at m'))) [
                    | inl old ↦ inr (h.from_done k s old)
                    | inr (inl e) ↦ inl e
                    | inr (inr gone) ↦ absurd gone
                  ]
            | inr t ↦ inr (h.from_done d s (rw t at m'))
          ];
    }

-- What the loop says of the propagates that it goes through.
abbrev Answers :
    Quorum → List (String × Request) → List (String × Request) → Option Request → Type 0
Answers q done rest none =
    (d : String) → 0 < sent d rest → is_reached q (sent d rest + sent d done) ≡ false
Answers q done rest (some req) =
    ((sender : String) × In (sender, req) rest)
    × (is_reached q (sent req.digest rest + sent req.digest done) ≡ true)

Answers-step :
    (q : Quorum) (sender : String) (req : Request) (done rest : List (String × Request))
    (r : Option Request)
    → is_reached q (sent req.digest done + 1) ≡ false
    → Answers q ((sender, req) ∷ done) rest r
    → Answers q done ((sender, req) ∷ rest) r
unfolding is_reached
Answers-step q sender req done rest none few h = λ d some_sent.
    elim (Bool-cases (ltb 0 (sent d rest))) [
      | inl t ↦ total_same d (h d (ground arith))
      | inr t ↦ elim (Bool-cases (req.digest =? d)) [
        | inl u ↦
            let same : req.digest ≡ d = (string_eq.beq_iff req.digest d).0 u in
            let few' : is_reached q (sent d done + 1) ≡ false =
              subst (λ z. is_reached q (sent z done + 1) ≡ false) same few in
            rw u (ground arith)
        | inr u ↦ absurd (ground arith)
      ]
    ]
  where
    total_same :
        (d : String)
        → is_reached q (sent d rest + sent d ((sender, req) ∷ done)) ≡ false
        → is_reached q (sent d ((sender, req) ∷ rest) + sent d done) ≡ false
    total_same d e = ground arith
Answers-step q sender req done rest (some found) few ((from, m), enough) =
    ((from, inr m), ground arith)

found_enough :
    (q : Quorum) (sender : String) (req : Request) (done rest : List (String × Request))
    → is_reached q (sent req.digest done + 1) ≡ true
    → is_reached q (sent req.digest ((sender, req) ∷ rest) + sent req.digest done) ≡ true
unfolding is_reached
found_enough q sender req done rest h = rw (=?_refl req.digest) (ground arith)

acceptable-Answers :
    (q : Quorum) (digests : List (String × List String)) (done rest : List (String × Request))
    → IsSeen digests done
    → Distinct (keys rest)
    → ((s : String) → In s (keys rest) → ¬ In s (keys done))
    → Answers q done rest (acceptable q digests rest)
unfolding acceptable
acceptable-Answers q digests done [] h d apart = λ x m. absurd (omega (arith, m))
acceptable-Answers q digests done ((sender, req) ∷ rest) h d apart =
    let seen = IsSeen-step sender req digests done h (apart sender (inl refl)) in
    let froms = add sender (senders_of req.digest digests) in
    let long : length froms ≡ sent req.digest done + 1 = omega (
      arith,
      rw (senders_of-insert req.digest req.digest froms digests, =?_refl req.digest) at
          (seen.counts req.digest),
    ) in
    elim (Bool-cases (is_reached q (length froms))) [
      | inl t ↦ rw t (
        (sender, inl refl),
        found_enough q sender req done rest (subst (λ n. is_reached q n ≡ true) long t),
      )
      | inr t ↦ rw t (
          Answers-step q sender req done rest (acceptable q (insert req.digest froms digests) rest)
            (subst (λ n. is_reached q n ≡ false) long t)
            (acceptable-Answers q (insert req.digest froms digests) ((sender, req) ∷ done) rest seen
              d.1
              (λ s m n. elim n [
                | inl e ↦ d.0 (subst (λ z. In z (keys rest)) e m)
                | inr n' ↦ apart s (inr m) n'
              ])))
    ]

In-text_only :
    (sender : String) (req : Request) (propagates : List (Sender × Request))
    → In (sender, req) (text_only propagates)
    → In (text sender, req) propagates
unfolding text_only
In-text_only sender req [] m = absurd m
In-text_only sender req ((text s, r) ∷ rest) (inl e) =
    inl (ap (λ (x : String × Request). (text x.0, x.1)) e)
In-text_only sender req ((text s, r) ∷ rest) (inr m) = inr (In-text_only sender req rest m)
In-text_only sender req ((bytes s, r) ∷ rest) m = inr (In-text_only sender req rest m)

In-keys-text_only :
    (s : String) (propagates : List (Sender × Request))
    → In s (keys (text_only propagates))
    → In (text s) (keys propagates)
unfolding text_only
In-keys-text_only s [] m = absurd m
In-keys-text_only s ((text x, r) ∷ rest) (inl e) = inl (ap text e)
In-keys-text_only s ((text x, r) ∷ rest) (inr m) = inr (In-keys-text_only s rest m)
In-keys-text_only s ((bytes x, r) ∷ rest) m = inr (In-keys-text_only s rest m)

Distinct-keys-text_only :
    (propagates : List (Sender × Request))
    → Distinct (keys propagates)
    → Distinct (keys (text_only propagates))
unfolding text_only
Distinct-keys-text_only [] d = tt
Distinct-keys-text_only ((text x, r) ∷ rest) d =
    ((λ m. d.0 (In-keys-text_only x rest m)), Distinct-keys-text_only rest d.1)
Distinct-keys-text_only ((bytes x, r) ∷ rest) d = Distinct-keys-text_only rest d.1

-- Let each sender have one propagate. Count for a digest the propagates with that digest from senders
-- whose name is a text. A request is found exactly if this count reaches the quorum for some digest
-- that has a propagate of such a sender: the request found is the propagate of such a sender and its
-- digest has the quorum, and if none is found, no digest has it.
pub state_with_acceptable_quorum_lem :
    (state : ReqState) (q : Quorum)
    → Distinct (keys state.propagates)
    → ((req : Request)
        → state_with_acceptable_quorum state q ≡ some req
        → ((sender : String) × In (text sender, req) state.propagates)
          × (is_reached q (sent req.digest (text_only state.propagates)) ≡ true))
      × (state_with_acceptable_quorum state q ≡ none
          → (d : String) → 0 < sent d (text_only state.propagates)
          → is_reached q (sent d (text_only state.propagates)) ≡ false)
unfolding state_with_acceptable_quorum
state_with_acceptable_quorum_lem state q d =
    let named = text_only state.propagates in
    let answer =
      acceptable-Answers q [] [] named (record { counts = λ x. refl; from_done = λ x s m. m })
        (Distinct-keys-text_only state.propagates d) (λ s m n. n) in
    (
      λ req e.
          let ((sender, m), enough) = subst (Answers q [] named) e answer in
          (
            (sender, In-text_only sender req state.propagates m),
            rw (add-zero (sent req.digest named)) at enough,
          ),
      λ e x some_sent.
          rw (add-zero (sent x named)) at (subst (Answers q [] named) e answer x some_sent),
    )
  where
    add-zero : (n : ℕ) → n + 0 ≡ n
    add-zero n = omega arith
