-- ===== src/ViewChange/Storages/Agreement.antt =====
-- No two nodes accept different NewViews for a view on a quorum of votes.
use indy_plenum.Prelude.{
  ℕ, ◌≤◌, String, List, some, true, false, ◌≡◌, refl, sym, subst, inl, inr, Bool-cases,
  Option-cases, In, Distinct, add, Distinct-add, lookup, insert, lookup-insert, lookup-insert_self,
  length-add, string_eq, ◌=?◌, arith, length, contains,
}
use indy_plenum.Quorums.{Quorums, quorums, is_reached}
use indy_plenum.Quorums.Bounds.{is_reached_mono}
use indy_plenum.Quorums.Intersection.{strong_quorums_intersect}
use indy_plenum.Names.{node_name_of}
use indy_plenum.Messages.{NewView}
use indy_plenum.ViewChange.Storages.{
  NewViewVotes, NewViewStore, add_vote, votes_or_new, add_new_view, clear_new_views,
}

module _ (new_view_digest : NewView → String) where
  -- What the voters of a digest are: each node once, and the message has the digest.
  pub record IsTally (digest : String) (v : NewViewVotes) : Type 0 where
    pub distinct : Distinct v.voted_nodes
    pub named : new_view_digest v.msg ≡ digest

  -- A NewView that was accepted on votes has enough of them.
  pub record IsSoundBy (HasEnough : ℕ → Type 0) (s : NewViewStore) : Type 0 where
    pub tallies :
        (digest : String) (v : NewViewVotes) → lookup digest s.votes ≡ some v → IsTally digest v
    pub accepted :
        (msg : NewView)
        → s.new_view ≡ some msg
        → (v : NewViewVotes) × (lookup (new_view_digest msg) s.votes ≡ some v)
          × HasEnough (length v.voted_nodes)

  -- Enough are a strong quorum of the storage.
  abbrev pub IsSound : NewViewStore → Type 0
  IsSound s = IsSoundBy (λ n. is_reached s.quorums.strong n ≡ true) s

  pub IsSoundBy-map :
      {P Q : ℕ → Type 0} (s : NewViewStore) → ((n : ℕ) → P n → Q n) → IsSoundBy P s → IsSoundBy Q s
  IsSoundBy-map s f h = record {
    tallies = h.tallies;
    accepted = λ msg e.
        let (v, found, enough) = h.accepted msg e in (v, found, f (length v.voted_nodes) enough);
  }

  add_vote-eq-add :
      (v : NewViewVotes) (frm : String) → (add_vote v frm).voted_nodes ≡ add frm v.voted_nodes
  unfolding add_vote
  add_vote-eq-add v frm = ground arith

  length-add_vote :
      (v : NewViewVotes) (frm : String) → length v.voted_nodes ≤ length (add_vote v frm).voted_nodes
  length-add_vote v frm = rw (add_vote-eq-add v frm) (ground (arith, length-add frm v.voted_nodes))

  add_vote-IsTally :
      (digest : String) (v : NewViewVotes) (frm : String)
      → IsTally digest v
      → IsTally digest (add_vote v frm)
  unfolding add_vote
  add_vote-IsTally digest v frm h = elim (Bool-cases (contains frm v.voted_nodes)) [
    | inl t ↦ rw (t, add_vote) h
    | inr t ↦ record {
      distinct =
          subst Distinct (sym (add_vote-eq-add v frm)) (Distinct-add frm v.voted_nodes h.distinct);
      named = rw (t, add_vote) h.named;
    }
  ]

  pub quorums-add_new_view :
      (s : NewViewStore) (msg : NewView) (frm : String)
      → (add_new_view new_view_digest s msg frm).quorums ≡ s.quorums
  unfolding add_new_view
  quorums-add_new_view s msg frm = ground arith

  module _ (HasEnough : ℕ → Type 0)
      (more_are_enough : (m n : ℕ) → m ≤ n → HasEnough m → HasEnough n) where
    votes_or_new-IsTally :
        (s : NewViewStore) (msg : NewView)
        → IsSoundBy HasEnough s
        → IsTally (new_view_digest msg) (votes_or_new (new_view_digest msg) msg s.votes)
    votes_or_new-IsTally s msg h = elim (Option-cases (lookup (new_view_digest msg) s.votes)) [
      | inl e ↦ rw (e, votes_or_new) (record { distinct = tt; named = refl })
      | inr (v, e) ↦ rw (e, votes_or_new) (h.tallies (new_view_digest msg) v e)
    ]

    -- Storing the votes for a digest that are no fewer than before.
    put_tally :
        (s : NewViewStore) (d : String) (v : NewViewVotes)
        → IsSoundBy HasEnough s
        → IsTally d v
        → ((old : NewViewVotes)
            → lookup d s.votes ≡ some old
            → length old.voted_nodes ≤ length v.voted_nodes)
        → IsSoundBy HasEnough (record s { votes = insert d v s.votes })
    put_tally s d v h hv more = record {
      tallies = λ k w e. elim (Bool-cases (d =? k)) [
        | inl t ↦
            let same : v ≡ w = cc (rw (lookup-insert d k v s.votes, t) at e) in
            subst (λ x. IsTally x w) ((string_eq.beq_iff d k).0 t) (subst (IsTally d) same hv)
        | inr t ↦ h.tallies k w (rw (lookup-insert d k v s.votes, t) at e)
      ];
      accepted = λ msg e.
          let (w, found, enough) = h.accepted msg e in
          elim (Bool-cases (d =? new_view_digest msg)) [
            | inl t ↦
                let found' =
                  subst (λ k. lookup k s.votes ≡ some w)
                    (sym ((string_eq.beq_iff d (new_view_digest msg)).0 t)) found in
                (
                  v,
                  rw (lookup-insert d (new_view_digest msg) v s.votes, t),
                  more_are_enough (length w.voted_nodes) (length v.voted_nodes) (more w found')
                      enough,
                )
            | inr t ↦ (w, rw (lookup-insert d (new_view_digest msg) v s.votes, t) found, enough)
          ];
    }

    -- Accepting a message whose votes are enough.
    accept :
        (s : NewViewStore) (msg : NewView) (v : NewViewVotes)
        → IsSoundBy HasEnough s
        → lookup (new_view_digest msg) s.votes ≡ some v
        → HasEnough (length v.voted_nodes)
        → IsSoundBy HasEnough (record s { new_view = some msg })
    accept s msg v h found enough = record {
      tallies = h.tallies;
      accepted = λ msg' e.
          let same : msg ≡ msg' = cc e in
          (
            v,
            subst (λ (m : NewView). lookup (new_view_digest m) s.votes ≡ some v) same found,
            enough,
          );
    }

    -- The votes for a NewView stay sound, if the strong quorum of the storage is enough.
    pub add_new_view-IsSoundBy :
        (s : NewViewStore) (msg : NewView) (frm : String)
        → ((n : ℕ) → is_reached s.quorums.strong n ≡ true → HasEnough n)
        → IsSoundBy HasEnough s
        → IsSoundBy HasEnough (add_new_view new_view_digest s msg frm)
    add_new_view-IsSoundBy s msg frm strong h =
        let d = new_view_digest msg in
        let node = node_name_of frm in
        let v = add_vote (votes_or_new d msg s.votes) node in
        let more : (old : NewViewVotes)
            → lookup d s.votes ≡ some old
            → length old.voted_nodes ≤ length v.voted_nodes =
          λ old e. rw (e, votes_or_new) (length-add_vote old node) in
        let put =
          put_tally s d v h
            (add_vote-IsTally d (votes_or_new d msg s.votes) node (votes_or_new-IsTally s msg h))
            more in
        elim (Bool-cases (is_reached s.quorums.strong (length v.voted_nodes))) [
          | inl t ↦
              unfold add_new_view in
              rw t (
                accept (record s { votes = insert d v s.votes }) msg v put
                  (lookup-insert_self d v s.votes) (strong (length v.voted_nodes) t))
          | inr t ↦ unfold add_new_view in rw t put
        ]

  -- The votes for a NewView stay sound under every operation of the storage.
  pub add_new_view-IsSound :
      (s : NewViewStore) (msg : NewView) (frm : String)
      → IsSound s
      → IsSound (add_new_view new_view_digest s msg frm)
  add_new_view-IsSound s msg frm h =
      subst
        (λ (q : Quorums).
          IsSoundBy (λ n. is_reached q.strong n ≡ true) (add_new_view new_view_digest s msg frm))
        (sym (quorums-add_new_view s msg frm))
        (add_new_view-IsSoundBy (λ n. is_reached s.quorums.strong n ≡ true)
          (λ m n le. is_reached_mono s.quorums.strong m n le) s msg frm (λ n t. t) h)

  pub clear_new_views-IsSoundBy :
      (HasEnough : ℕ → Type 0) (s : NewViewStore) → IsSoundBy HasEnough (clear_new_views s)
  unfolding clear_new_views
  clear_new_views-IsSoundBy HasEnough s = record {
    tallies = λ d v e. absurd (cc e);
    accepted = λ msg e. absurd (cc e);
  }

-- If the storages of two nodes of a pool hold NewViews that were accepted on votes, the voters are
-- nodes of the pool, and a node outside at most f faulty ones votes for one digest only, then both
-- accepted messages have the same digest.
pub accepted_new_views_agree :
    (new_view_digest : NewView → String) (nodes faulty : List String) (a b : NewViewStore)
    (m m' : NewView)
    → 1 ≤ length nodes
    → Distinct nodes
    → length faulty ≤ (quorums (length nodes)).f
    → IsSound new_view_digest a
    → IsSound new_view_digest b
    → a.quorums ≡ quorums (length nodes)
    → b.quorums ≡ quorums (length nodes)
    → ((d : String) (v : NewViewVotes) (x : String)
        → lookup d a.votes ≡ some v
        → In x v.voted_nodes
        → In x nodes)
    → ((d : String) (v : NewViewVotes) (x : String)
        → lookup d b.votes ≡ some v
        → In x v.voted_nodes
        → In x nodes)
    → ((d d' : String) (v v' : NewViewVotes) (x : String)
        → lookup d a.votes ≡ some v
        → lookup d' b.votes ≡ some v'
        → In x v.voted_nodes
        → In x v'.voted_nodes
        → contains x faulty ≡ false
        → d ≡ d')
    → a.new_view ≡ some m
    → b.new_view ≡ some m'
    → new_view_digest m ≡ new_view_digest m'
accepted_new_views_agree dig nodes faulty a b m m' pool dn few sa sb qa qb in_a in_b honest ea eb =
    let (v, found, enough) = sa.accepted m ea in
    let (v', found', enough') = sb.accepted m' eb in
    let (x, mx, mx', ok) =
      strong_quorums_intersect nodes v.voted_nodes v'.voted_nodes faulty pool dn
        (sa.tallies (dig m) v found).distinct (sb.tallies (dig m') v' found').distinct
        (λ y. in_a (dig m) v y found) (λ y. in_b (dig m') v' y found') few
        (subst (λ (q : Quorums). is_reached q.strong (length v.voted_nodes) ≡ true) qa enough)
        (subst (λ (q : Quorums). is_reached q.strong (length v'.voted_nodes) ≡ true) qb enough') in
    honest (dig m) (dig m') v v' x found found' mx mx' ok
